-- ===== src/Middleware/Audited.antt =====
-- The audit trail of the chain of middlewares: what a request that is answered leaves in it.
use mathlib.Core.List.{append_assoc}
use mathlib.Core.Option.{some-injective}
use omnibioai_api_gateway.Prelude.{
  String, ◌≡◌, refl, ap, sym, ◌∙◌, ◌⊎◌, inl, inr, Bool, true, false, Option, none, some, List, [],
  ◌∷◌, ◌++◌, ◌==◌, arith, Bool-cases, Option-cases, if◌then◌else◌, ltb,
}
use omnibioai_api_gateway.Dict.{lookup, lookup-insert}
use omnibioai_api_gateway.Http.{Request, User, State, Response, AuditEvent, App}
use omnibioai_api_gateway.Router.Exemptions.{
  is_skipped, auth_skip_paths, policy_skip_paths, hpc_skip_paths,
}
use omnibioai_api_gateway.Clients.{is_compute_service}
use omnibioai_api_gateway.Middleware.{
  Services, trace_of, authenticate, auth_middleware, policy_decision, policy_middleware,
  hpc_decision, hpc_middleware, audit_middleware, gateway_chain, trace_middleware, request_event,
  audited,
}
use omnibioai_api_gateway.RequestState.{
  bearer_token, is_api_key, verdict_of, hpc_service, fresh_state, with_trace, before, decide,
  denial, auth_failed, iam_auth_success, session_state, api_key_state,
}

-- "deny" from status 400 on
abbrev pub decision_on : Response → String
decision_on r = if ltb r.status 400 then "allow" else "deny"

-- The last event of a trail is on this response, in this trace.
pub record Closes (trace : String) (r : Response) (events : List AuditEvent) : Type 0 where
  pub earlier : List AuditEvent
  pub last : AuditEvent
  pub split : events ≡ earlier ++ last ∷ []
  pub decision : last.decision ≡ some (decision_on r)
  pub trace_id : last.trace_id ≡ trace

-- If there is a response, its trail is closed.
abbrev pub IsAudited : String → Option Response × List AuditEvent → Type 0
IsAudited trace x = (r : Response) → x.0 ≡ some r → Closes trace r x.1

module _ (trace : String) where
  refusal-IsAudited :
      (r : Response) (e : AuditEvent)
      → ltb r.status 400 ≡ false
      → e.decision ≡ some "deny"
      → e.trace_id ≡ trace
      → IsAudited trace (some r, e ∷ [])
  refusal-IsAudited r e bad denied traced r' same = record {
    earlier = [];
    last = e;
    split = refl;
    decision = denied ∙ rw (← some-injective _ _ same, bad);
    trace_id = traced;
  }

  before-IsAudited :
      (events : List AuditEvent) (x : Option Response × List AuditEvent)
      → IsAudited trace x
      → IsAudited trace (before events x)
  before-IsAudited events x h r same =
      let c = h r same in
      record {
        earlier = events ++ c.earlier;
        last = c.last;
        split = ap (λ l. events ++ l) c.split ∙ sym (append_assoc events c.earlier (c.last ∷ []));
        decision = c.decision;
        trace_id = c.trace_id;
      }

  decide-IsAudited :
      (verdict : Option Bool) (r : Response) (e : AuditEvent)
      (x : Option Response × List AuditEvent)
      → ltb r.status 400 ≡ false
      → e.decision ≡ some "deny"
      → e.trace_id ≡ trace
      → IsAudited trace x
      → IsAudited trace (decide verdict r e x)
  decide-IsAudited none r e x bad denied traced h = λ r' same. cc
  decide-IsAudited (some true) r e x bad denied traced h = h
  decide-IsAudited (some false) r e x bad denied traced h = refusal-IsAudited r e bad denied traced

module _ (sv : Services) (req : Request) where
  audited-IsAudited :
      (st : State) (x : Option Response × List AuditEvent)
      → IsAudited st.trace_id (audited sv req st x)
  unfolding request_event
  audited-IsAudited st (none, events) r same = cc
  audited-IsAudited st (some r, events) r' same = record {
    earlier = events;
    last = request_event sv req st r;
    split = refl;
    decision = ap (λ q. some (decision_on q)) (some-injective _ _ same);
    trace_id = refl;
  }

  audit-IsAudited :
      (next : App) (st : State) → IsAudited st.trace_id (audit_middleware sv next req st)
  unfolding audit_middleware
  audit-IsAudited next st = audited-IsAudited st (next req st)

  hpc-IsAudited :
      (next : App) (st : State)
      → IsAudited st.trace_id (next req st)
      → IsAudited st.trace_id (hpc_middleware sv next req st)
  unfolding hpc_middleware denial
  hpc-IsAudited next st h = elim (Bool-cases (is_skipped hpc_skip_paths req.method req.path)) [
    | inl exempt ↦ rw exempt h
    | inr checked ↦ elim (Bool-cases (is_compute_service (hpc_service req))) [
      | inr other ↦ rw (checked, other) h
      | inl compute ↦
          rw (checked, compute)
            (decide-IsAudited st.trace_id (verdict_of "allow" (hpc_decision sv st)) _ _
              (next req st) refl refl refl h)
    ]
  ]

  policy-IsAudited :
      (next : App) (st : State)
      → (is_skipped policy_skip_paths req.method req.path ≡ true)
        ⊎ ((u : User) × (st.user ≡ some u))
      → IsAudited st.trace_id (next req st)
      → IsAudited st.trace_id (policy_middleware sv next req st)
  unfolding policy_middleware denial
  policy-IsAudited next st (inl exempt) h = rw exempt h
  policy-IsAudited next st (inr (u, known)) h =
      elim (Bool-cases (is_skipped policy_skip_paths req.method req.path)) [
        | inl exempt ↦ rw exempt h
        | inr checked ↦
            rw (checked, known)
              (before-IsAudited st.trace_id (iam_auth_success req st u ∷ []) _ (
                decide-IsAudited st.trace_id (verdict_of "allowed" (policy_decision sv req st u)) _
                  _ (next req st) refl refl refl h))
      ]

  -- A state as AuthMiddleware passes it on: its trace is that of `st`, and there is a user, if PolicyMiddleware
  -- asks for one.
  abbrev IsPassed : State → State → Type 0
  IsPassed st st' =
      (st'.trace_id ≡ st.trace_id)
      × ((is_skipped policy_skip_paths req.method req.path ≡ true)
          ⊎ ((u : User) × (st'.user ≡ some u)))

  auth_skipped-policy_skipped :
      (method path : String)
      → is_skipped auth_skip_paths method path ≡ true
      → is_skipped policy_skip_paths method path ≡ true
  unfolding is_skipped
  auth_skipped-policy_skipped method path h = ground arith

  authenticate-IsPassed :
      (st st' : State) (token : String) → authenticate sv st token ≡ some st' → IsPassed st st'
  unfolding authenticate session_state api_key_state
  authenticate-IsPassed st st' token h = elim (Bool-cases (is_api_key token)) [
    | inl key ↦ elim (Option-cases (sv.validate_api_key token)) [
      | inl refused ↦ cc (rw (key, refused) at h)
      | inr ((u, k), found) ↦
          let same = sym (some-injective _ _ (rw (key, found) at h)) in
          (ap (λ (t : State). t.trace_id) same, inr (u, ap (λ (t : State). t.user) same))
    ]
    | inr other ↦ elim (Option-cases (sv.validate token)) [
      | inl refused ↦ cc (rw (other, refused) at h)
      | inr (u, found) ↦
          let same = sym (some-injective _ _ (rw (other, found) at h)) in
          (ap (λ (t : State). t.trace_id) same, inr (u, ap (λ (t : State). t.user) same))
    ]
  ]

  auth-IsAudited :
      (next : App) (st : State)
      → ((st' : State) → IsPassed st st' → IsAudited st.trace_id (next req st'))
      → IsAudited st.trace_id (auth_middleware sv next req st)
  unfolding auth_middleware auth_failed
  auth-IsAudited next st h =
      let token = bearer_token req.authorization in
      elim (Bool-cases (is_skipped auth_skip_paths req.method req.path)) [
        | inl exempt ↦
            rw exempt (h st (refl, inl (auth_skipped-policy_skipped req.method req.path exempt)))
        | inr checked ↦ elim (Bool-cases (token == "")) [
          | inl blank ↦ rw (checked, blank) (refusal-IsAudited st.trace_id _ _ refl refl refl)
          | inr given ↦ elim (Option-cases (authenticate sv st token)) [
            | inl refused ↦
                rw (checked, given, refused) (refusal-IsAudited st.trace_id _ _ refl refl refl)
            | inr (st', accepted) ↦
                rw (checked, given, accepted) (h st' (authenticate-IsPassed st st' token accepted))
          ]
        ]
      ]

  guarded-IsAudited :
      (next : App) (st : State)
      → IsAudited st.trace_id (
          auth_middleware sv
            (policy_middleware sv (hpc_middleware sv (audit_middleware sv next)))
            req
            st)
  guarded-IsAudited next st = auth-IsAudited _ st (λ st' passed.
      rw (← passed.0)
        (policy-IsAudited _ st' passed.1 (hpc-IsAudited _ st' (audit-IsAudited next st'))))

  traced-Closes :
      (trace : String) (x : Option Response × List AuditEvent) (r : Response)
      → IsAudited trace x
      → with_trace trace x.0 ≡ some r
      → Closes trace r x.1 × (lookup "X-Trace-Id" r.headers ≡ some trace)
  traced-Closes trace (none, events) r h same = cc
  traced-Closes trace (some r', events) r h same =
      let c = h r' refl in
      let answer = some-injective _ _ same in
      (
        record {
          earlier = c.earlier;
          last = c.last;
          split = c.split;
          decision = c.decision ∙ ap (λ (q : Response). some (decision_on q)) answer;
          trace_id = c.trace_id;
        },
        ap (λ (q : Response). lookup "X-Trace-Id" q.headers) (sym answer)
            ∙ lookup-insert "X-Trace-Id" "X-Trace-Id" trace r'.headers,
      )

  -- Whatever the route, IAMClient and the engines do, a request that is answered, be it by the route or by a
  -- refusal on the way, ends its audit trail with an event of its trace, whose decision is "deny" if
  -- the status is 400 or more, and "allow" otherwise; the answer carries the trace as X-Trace-Id.
  pub gateway_chain-Closes :
      (handler : App) (r : Response)
      → (gateway_chain sv handler req).0 ≡ some r
      → Closes (trace_of sv req) r (gateway_chain sv handler req).1
        × (lookup "X-Trace-Id" r.headers ≡ some (trace_of sv req))
  unfolding gateway_chain trace_middleware
  gateway_chain-Closes handler r answered =
      traced-Closes (trace_of sv req) _ r
        (guarded-IsAudited handler (record fresh_state { trace_id = trace_of sv req })) answered
