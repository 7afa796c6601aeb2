-- ===== src/V1/Billable/Unlimited.antt =====
-- What a billable call comes to without the store: no rate limit, no slots, no quota and no claims. It is what
-- the steps of app/routes/v1.py are compared with where the store cannot be reached.
use omnibioai_api_gateway.Prelude.{
  ℕ, ◌≡◌, refl, inl, inr, String, Option, some, List, [], ◌∷◌, ◌++◌, ◌+◌, if◌then◌else◌, Bool-cases,
  Option-cases, arith,
}
use omnibioai_api_gateway.Json.{Json, Fields, obj, get, fields_of}
use omnibioai_api_gateway.Exec.{Exec, pure, or_raise, ◌>>=◌, ◌>>◌}
use omnibioai_api_gateway.Http.{Request, State}
use omnibioai_api_gateway.V1Store.{is_success}
use omnibioai_api_gateway.V1.{
  World, Outside, UsageEvent, Answer, on_store, call_service, success_answer, upstream_error,
}
use omnibioai_api_gateway.V1.Usage.{emit_usage, drain, drain_from, send_or_keep}
use omnibioai_api_gateway.V1.Billable.{
  Action, Endpoint, Context, emit_all, emit_tokens, forward_to, is_null, token_usage,
  token_input_resource, token_output_resource,
}

module _ {S : Type 0} (o : Outside S) where
  -- The response of the literature service, translated and billed, or its error.
  unfoldable pub pass_on : Endpoint → Context → ℕ × Json → Action o Answer
  pass_on ep ctx (status, response) =
      if is_success status
      then (do
        result ← or_raise (fields_of response)
        public ← or_raise (ep.build_public_response result ctx.domain ctx.request_id o.latency_ms)
        emit_all o ep ctx public
        pure (success_answer status (obj public) ctx.request_id ctx.limits))
      else pure (upstream_error status response ctx.request_id ctx.limits)

  unfoldable pub serve : Endpoint → Request → State → Context → Fields → Action o Answer
  unfolding pass_on
  serve ep req st ctx rag_body =
      if ctx.test_mode
      then pure (
          success_answer 200 (obj (ep.build_test_response ctx.domain ctx.request_id 0))
            ctx.request_id ctx.limits)
      else (do
        answer ← forward_to o req st "rag" "POST" "v1/query" (some (obj rag_body))
        pass_on ep ctx answer)

module _ {S : Type 0} where
  -- The same result, and the same world but for the store.
  abbrev pub Like : {A : Type 0} → Option A × World S → Option A × World S → Type 0
  Like x y = (s : S) × (x ≡ (y.0, record y.1 { store = s }))

  -- From worlds that differ in the store at most two blocks come to the same.
  abbrev pub Agree : {A : Type 0} → Exec (World S) A → Exec (World S) A → Type 0
  Agree m m' = (w : World S) (s : S) → Like (m (record w { store = s })) (m' w)

  pub pure-Agree : {A : Type 0} (a : Option A) → Agree (or_raise a) (or_raise a)
  pure-Agree a w s = (s, refl)

  pub bind-Agree :
      {A B : Type 0} (m m' : Exec (World S) A) (f f' : A → Exec (World S) B)
      → Agree m m'
      → ((a : A) → Agree (f a) (f' a))
      → Agree (m >>= f) (m' >>= f')
  bind-Agree m m' f f' first rest w s =
      let (t, same) = first w s in
      elim (Option-cases (m' w).0) [
        | inl raised ↦ rw (same, raised) (t, refl)
        | inr (a, done) ↦ rw (same, done) (rest a (m' w).1 t)
      ]

  -- A step on the store that lets the call through.
  pub skip-Agree :
      {A B : Type 0} (o : Outside S) (m : Exec S A) (a : A) (f : A → Exec (World S) B)
      (m' : Exec (World S) B)
      → ((s : S) → (m s).0 ≡ some a)
      → Agree (f a) m'
      → Agree (on_store o m >>= f) m'
  skip-Agree o m a f m' through rest w s = rw (through s) (rest w (m s).1)

module _ {S : Type 0} (o : Outside S) where
  drain_from-store :
      (es : List UsageEvent) (w : World S) (s : S)
      → drain_from o es (record w { store = s }) ≡ record (drain_from o es w) { store = s }
  unfolding drain_from
  drain_from-store [] w s = refl
  drain_from-store (e ∷ es) w s = ground (
    arith,
    drain_from-store es (record w { attempts = w.attempts + 1; stream = w.stream ++ e ∷ [] }) s,
  )

  pub emit_usage-Agree : (e : UsageEvent) → Agree (emit_usage o e) (emit_usage o e)
  unfolding emit_usage drain send_or_keep
  emit_usage-Agree e w s =
      let same = drain_from-store w.pending w s in
      elim (Bool-cases (o.xadd_works (drain_from o w.pending w).attempts)) [
        | inl works ↦ rw (same, works) (s, refl)
        | inr fails ↦ rw (same, fails) (s, refl)
      ]

  emit_tokens-Agree :
      (ctx : Context) (resource suffix : String) (quantity model : Json)
      → Agree
          (emit_tokens o ctx resource suffix quantity model)
          (emit_tokens o ctx resource suffix quantity model)
  unfolding emit_tokens
  emit_tokens-Agree ctx resource suffix quantity model w s =
      elim (Bool-cases (is_null o quantity)) [
        | inl absent ↦ rw absent (s, refl)
        | inr there ↦ rw there (
            bind-Agree (emit_usage o _) (emit_usage o _) (λ _. pure tt) (λ _. pure tt)
              (emit_usage-Agree _) (λ sent w s. (s, refl)) w s)
      ]

  pub emit_all-Agree :
      (ep : Endpoint) (ctx : Context) (response : Fields)
      → Agree (emit_all o ep ctx response) (emit_all o ep ctx response)
  unfolding emit_all
  emit_all-Agree ep ctx response =
      let input = λ (usage : Fields).
        emit_tokens o ctx token_input_resource ":tokens:input" (get "input_tokens" usage)
          (get "model_source" response) in
      let output = λ (usage : Fields).
        emit_tokens o ctx token_output_resource ":tokens:output" (get "output_tokens" usage)
          (get "model_source" response) in
      let tokens = λ (usage : Fields). input usage >> output usage in
      let later = or_raise (token_usage o response) >>= tokens in
      bind-Agree (emit_usage o _) (emit_usage o _) (λ _. later) (λ _. later) (emit_usage-Agree _)
        (λ sent.
          bind-Agree (or_raise (token_usage o response)) (or_raise (token_usage o response)) tokens
            tokens (pure-Agree (token_usage o response))
            (λ usage.
              bind-Agree (input usage) (input usage) (λ _. output usage) (λ _. output usage)
                (emit_tokens-Agree ctx _ _ _ _) (λ done. emit_tokens-Agree ctx _ _ _ _)))

  pub forward_to-Agree :
      (req : Request) (st : State) (service method path : String) (body : Option Json)
      → Agree
          (forward_to o req st service method path body)
          (forward_to o req st service method path body)
  unfolding forward_to call_service
  forward_to-Agree req st service method path body w s = (s, refl)
