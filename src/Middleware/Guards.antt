-- ===== src/Middleware/Guards.antt =====
-- What the chain of middlewares has established when a request reaches its route.
use omnibioai_api_gateway.Prelude.{
  String, ◌≡◌, refl, ap, sym, ◌∙◌, ◌⊎◌, inl, inr, true, false, Option, none, some, [], ◌==◌, arith,
  Bool-cases, Option-cases, is_some,
}
use omnibioai_api_gateway.Http.{Request, User, State, Response, App}
use omnibioai_api_gateway.Router.{resolve_service}
use omnibioai_api_gateway.Router.Exemptions.{
  is_skipped, auth_skip_paths, policy_skip_paths, hpc_skip_paths, route_service,
  auth_skipped-no_service, policy_skipped-verify,
}
use omnibioai_api_gateway.Clients.{is_compute_service}
use omnibioai_api_gateway.Middleware.{
  Services, trace_of, authenticate, auth_middleware, policy_decision, policy_middleware,
  hpc_decision, hpc_middleware, audit_middleware, gateway_chain,
}
use omnibioai_api_gateway.RequestState.{
  bearer_token, verdict_of, hpc_service, fresh_state, with_trace,
}

-- A route that answers nothing: what a middleware does before it is a refusal.
abbrev pub nowhere : App
nowhere req st = (none, [])

-- An exception, or a response with status 401 or 403.
abbrev pub IsRefusal : Option Response → Type 0
IsRefusal none = Unit
IsRefusal (some r) = (r.status ≡ 401) ⊎ (r.status ≡ 403)

-- A middleware either answers itself, whatever stands behind it, or passes the request on with a state for
-- which `Facts` hold, and returns what stands behind it.
data Outcome (m : App → App) (req : Request) (st : State) (Facts : State → Type 0) : Type 0 where
  stops :
      IsRefusal (m nowhere req st).0
      → ((next : App) → (m next req st).0 ≡ (m nowhere req st).0)
      → Outcome m req st Facts
  passes :
      (st' : State)
      → Facts st'
      → ((next : App) → (m next req st).0 ≡ (next req st').0)
      → Outcome m req st Facts

-- The same for a middleware that passes on the state that it got.
data Gate (m : App → App) (req : Request) (st : State) (Fact : Type 0) : Type 0 where
  closed :
      IsRefusal (m nowhere req st).0
      → ((next : App) → (m next req st).0 ≡ (m nowhere req st).0)
      → Gate m req st Fact
  opened : Fact → ((next : App) → (m next req st).0 ≡ (next req st).0) → Gate m req st Fact

module _ (sv : Services) (req : Request) where
  -- Its path is exempt and the state is as it came, or the bearer token of the request was accepted.
  abbrev pub IsAuthenticated : State → State → Type 0
  IsAuthenticated st st' =
      ((is_skipped auth_skip_paths req.method req.path ≡ true) × (st' ≡ st))
      ⊎ ((authenticate sv st (bearer_token req.authorization) ≡ some st')
          × ((bearer_token req.authorization == "") ≡ false))

  -- Its path is exempt, or the policy engine allowed the request of the state's user.
  abbrev pub IsPermitted : State → Type 0
  IsPermitted st =
      (is_skipped policy_skip_paths req.method req.path ≡ true)
      ⊎ ((u : User) × (st.user ≡ some u)
          × (verdict_of "allowed" (policy_decision sv req st u) ≡ some true))

  -- Its path is exempt, or no compute service is asked for, or the quota engine allowed it.
  abbrev pub IsWithinQuota : State → Type 0
  IsWithinQuota st =
      (is_skipped hpc_skip_paths req.method req.path ≡ true)
      ⊎ (is_compute_service (hpc_service req) ≡ false)
      ⊎ (verdict_of "allow" (hpc_decision sv st) ≡ some true)

  auth_outcome : (st : State) → Outcome (auth_middleware sv) req st (IsAuthenticated st)
  unfolding auth_middleware
  auth_outcome st = elim (Bool-cases (is_skipped auth_skip_paths req.method req.path)) [
    | inl exempt ↦ passes st (inl (exempt, refl)) (λ next. rw exempt)
    | inr checked ↦ elim (Bool-cases (bearer_token req.authorization == "")) [
      | inl blank ↦ stops (rw (checked, blank) (inl refl)) (λ next. rw (checked, blank))
      | inr given ↦ elim (Option-cases (authenticate sv st (bearer_token req.authorization))) [
        | inl refused ↦
            stops (rw (checked, given, refused) (inl refl)) (λ next. rw (checked, given, refused))
        | inr (st', accepted) ↦
            passes st' (inr (accepted, given)) (λ next. rw (checked, given, accepted))
      ]
    ]
  ]

  policy_gate : (st : State) → Gate (policy_middleware sv) req st (IsPermitted st)
  unfolding policy_middleware
  policy_gate st = elim (Bool-cases (is_skipped policy_skip_paths req.method req.path)) [
    | inl exempt ↦ opened (inl exempt) (λ next. rw exempt)
    | inr checked ↦ elim (Option-cases st.user) [
      | inl nobody ↦ closed (rw (checked, nobody) (inr refl)) (λ next. rw (checked, nobody))
      | inr (u, known) ↦ elim (Option-cases (verdict_of "allowed" (policy_decision sv req st u))) [
        | inl broken ↦ closed (rw (checked, known, broken) tt) (λ next. rw (checked, known, broken))
        | inr (v, decided) ↦ elim (Bool-cases v) [
          | inl allowed ↦
              opened (inr (u, known, decided ∙ ap some allowed))
                (λ next. simp (checked, known, decided, allowed))
          | inr denied ↦
              closed (rw (checked, known, decided, denied) (inr refl))
                (λ next. rw (checked, known, decided, denied))
        ]
      ]
    ]
  ]

  hpc_gate : (st : State) → Gate (hpc_middleware sv) req st (IsWithinQuota st)
  unfolding hpc_middleware
  hpc_gate st = elim (Bool-cases (is_skipped hpc_skip_paths req.method req.path)) [
    | inl exempt ↦ opened (inl exempt) (λ next. rw exempt)
    | inr checked ↦ elim (Bool-cases (is_compute_service (hpc_service req))) [
      | inr other ↦ opened (inr (inl other)) (λ next. rw (checked, other))
      | inl compute ↦ elim (Option-cases (verdict_of "allow" (hpc_decision sv st))) [
        | inl broken ↦
            closed (rw (checked, compute, broken) tt) (λ next. rw (checked, compute, broken))
        | inr (v, decided) ↦ elim (Bool-cases v) [
          | inl allowed ↦
              opened (inr (inr (decided ∙ ap some allowed)))
                (λ next. rw (checked, compute, decided, allowed))
          | inr denied ↦
              closed (rw (checked, compute, decided, denied) (inr refl))
                (λ next. rw (checked, compute, decided, denied))
        ]
      ]
    ]
  ]

  audit_passes : (next : App) (st : State) → (audit_middleware sv next req st).0 ≡ (next req st).0
  unfolding audit_middleware
  audit_passes next st = ground arith

  -- The facts about the state with which a route is called, from the state that TraceMiddleware passes on.
  pub record IsAdmitted (st st' : State) : Type 0 where
    pub authenticated : IsAuthenticated st st'
    pub permitted : IsPermitted st'
    pub within_quota : IsWithinQuota st'

  abbrev guarded : App → App
  guarded next =
      auth_middleware sv (policy_middleware sv (hpc_middleware sv (audit_middleware sv next)))

  abbrev Guarded : State → Type 0
  Guarded st =
      (IsRefusal (guarded nowhere req st).0
        × ((next : App) → (guarded next req st).0 ≡ (guarded nowhere req st).0))
      ⊎ ((st' : State) × IsAdmitted st st'
          × ((next : App) → (guarded next req st).0 ≡ (next req st').0))

  -- `e` says that so far the chain passes the request on to `m`, with `st'`.
  refused_by :
      (m : App → App) (st st' : State)
      → ((next : App) → (guarded next req st).0 ≡ (m next req st').0)
      → IsRefusal (m nowhere req st').0
      → ((next : App) → (m next req st').0 ≡ (m nowhere req st').0)
      → Guarded st
  refused_by m st st' e refusal same =
      inl (rw (e nowhere) refusal, λ next. e next ∙ same next ∙ sym (e nowhere))

  after_policy :
      (st st' : State)
      → IsAuthenticated st st'
      → IsPermitted st'
      → Gate (hpc_middleware sv) req st' (IsWithinQuota st')
      → ((next : App)
          → (guarded next req st).0 ≡ (hpc_middleware sv (audit_middleware sv next) req st').0)
      → Guarded st
  after_policy st st' a p (closed refusal same) e =
      refused_by (λ next. hpc_middleware sv (audit_middleware sv next)) st st' e
        (rw (same (audit_middleware sv nowhere)) refusal)
        (λ next. same (audit_middleware sv next) ∙ sym (same (audit_middleware sv nowhere)))
  after_policy st st' a p (opened q same) e = inr (
    st',
    record { authenticated = a; permitted = p; within_quota = q },
    λ next. e next ∙ same (audit_middleware sv next) ∙ audit_passes next st',
  )

  abbrev behind_policy : App → App
  behind_policy next = hpc_middleware sv (audit_middleware sv next)

  after_auth :
      (st st' : State)
      → IsAuthenticated st st'
      → Gate (policy_middleware sv) req st' (IsPermitted st')
      → ((next : App)
          → (guarded next req st).0 ≡ (policy_middleware sv (behind_policy next) req st').0)
      → Guarded st
  after_auth st st' a (closed refusal same) e =
      refused_by (λ next. policy_middleware sv (behind_policy next)) st st' e
        (rw (same (behind_policy nowhere)) refusal)
        (λ next. same (behind_policy next) ∙ sym (same (behind_policy nowhere)))
  after_auth st st' a (opened p same) e =
      after_policy st st' a p (hpc_gate st') (λ next. e next ∙ same (behind_policy next))

  guard_cases : (st : State) → Outcome (auth_middleware sv) req st (IsAuthenticated st) → Guarded st
  guard_cases st (stops refusal same) = inl (
    rw (same (policy_middleware sv (behind_policy nowhere))) refusal,
    λ next.
        same (policy_middleware sv (behind_policy next))
        ∙ sym (same (policy_middleware sv (behind_policy nowhere))),
  )
  guard_cases st (passes st' a same) =
      after_auth st st' a (policy_gate st')
        (λ next. same (policy_middleware sv (behind_policy next)))

  IsRefusal-with_trace :
      (t : String) (o : Option Response) → IsRefusal o → IsRefusal (with_trace t o)
  IsRefusal-with_trace t none h = tt
  IsRefusal-with_trace t (some r) h = h

  -- Whatever the services answer, a request is either refused with 401, 403 or an exception, the same for every
  -- route, or it reaches the route, which answers it, with a state that has passed authentication,
  -- the policy decision and the quota decision, each as far as the path is not exempt.
  pub chain_guards :
      (IsRefusal (gateway_chain sv nowhere req).0
        × ((next : App) → (gateway_chain sv next req).0 ≡ (gateway_chain sv nowhere req).0))
      ⊎ ((st : State) × IsAdmitted (record fresh_state { trace_id = trace_of sv req }) st
          × ((next : App)
              → (gateway_chain sv next req).0 ≡ with_trace (trace_of sv req) (next req st).0))
  unfolding gateway_chain
  chain_guards =
      let t = trace_of sv req in
      let start = record fresh_state { trace_id = t } in
      elim (guard_cases start (auth_outcome start)) [
        | inl (refusal, same) ↦
            inl (IsRefusal-with_trace t _ refusal, λ next. ap (with_trace t) (same next))
        | inr (st, admitted, reached) ↦ inr (st, admitted, λ next. ap (with_trace t) (reached next))
      ]

-- A request that reached its route, on a path that the catch-all route forwards to a service, carries an
-- accepted bearer token, and the policy engine has allowed it, unless the path is "/auth/verify".
pub service_needs_checks :
    (sv : Services) (req : Request) (st st' : State)
    → IsAdmitted sv req st st'
    → is_some (resolve_service (route_service req.path)) ≡ true
    → (authenticate sv st (bearer_token req.authorization) ≡ some st')
      × ((req.path ≡ "/auth/verify")
          ⊎ ((u : User) × (st'.user ≡ some u)
              × (verdict_of "allowed" (policy_decision sv req st' u) ≡ some true)))
service_needs_checks sv req st st' admitted service =
    (token_accepted admitted.authenticated, allowed admitted.permitted)
  where
    token_accepted :
        IsAuthenticated sv req st st'
        → authenticate sv st (bearer_token req.authorization) ≡ some st'
    token_accepted (inl (exempt, _)) =
        cc (rw (auth_skipped-no_service req.method req.path exempt) at service)
    token_accepted (inr (accepted, _)) = accepted

    allowed :
        IsPermitted sv req st'
        → (req.path ≡ "/auth/verify")
          ⊎ ((u : User) × (st'.user ≡ some u)
              × (verdict_of "allowed" (policy_decision sv req st' u) ≡ some true))
    allowed (inl exempt) = inl (policy_skipped-verify req.method req.path exempt service)
    allowed (inr fact) = inr fact
