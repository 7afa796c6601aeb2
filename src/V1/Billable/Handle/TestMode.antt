-- ===== src/V1/Billable/Handle/TestMode.antt =====
-- What a call with a test key leaves alone.
use omnibioai_api_gateway.Prelude.{
  ℕ, ◌≡◌, refl, inl, inr, String, true, Option, none, some, ◌==◌, Bool-cases, Option-cases,
}
use omnibioai_api_gateway.Json.{Json, Fields, obj}
use omnibioai_api_gateway.Exec.{Exec, pure, ◌>>=◌}
use omnibioai_api_gateway.Http.{Request, State}
use omnibioai_api_gateway.Contract.{Built, query, unsupported, crashed}
use omnibioai_api_gateway.V1Store.{Begun, new, replay, mismatch, in_progress, idempotency_begin}
use omnibioai_api_gateway.V1.{
  World, Outside, RateHeaders, Answer, on_store, caller_of, is_test_mode, rate_limited,
  success_answer,
}
use omnibioai_api_gateway.V1.Billable.{
  Endpoint, Context, settle, run_test, run_either, is_idempotency_key,
}
use omnibioai_api_gateway.V1.Billable.Handle.{
  slot_limit, with_limit, with_slots, byok_model, with_model_key, with_provider_key, when_begun,
  with_key, with_claim, context_of, when_limited, with_limits, when_built, when_read,
  handle_billable_literature_call,
}

module _ {S : Type 0} where
  -- From `w` only the store may have changed: no service was called, and nothing was written to the stream,
  -- tried to be, or kept in the outbox.
  abbrev pub ChangesStore : {A : Type 0} → World S → Option A × World S → Type 0
  ChangesStore w x = (s : S) × (x.1 ≡ record w { store = s })

  bind-ChangesStore :
      {A B : Type 0} (m : Exec (World S) A) (f : A → Exec (World S) B) (w : World S)
      → ChangesStore w (m w)
      → ((a : A) (s : S) → ChangesStore w (f a (record w { store = s })))
      → ChangesStore w ((m >>= f) w)
  bind-ChangesStore m f w (s, e) k = elim (Option-cases (m w).0) [
    | inl raised ↦ rw raised (s, e)
    | inr (a, done) ↦ rw (done, e) (k a s)
  ]

module _ {S : Type 0} (o : Outside S) (ep : Endpoint) where
  module _ (req : Request) (st : State) where
    module _ (ctx : Context) (rag_body : Fields) (test : ctx.test_mode ≡ true) where
      settle-ChangesStore :
          (status : ℕ) (body : Json) (w : World S) → ChangesStore w (settle o ctx status body w)
      unfolding settle
      settle-ChangesStore status body w = elim (Option-cases ctx.idempotency_key) [
        | inl absent ↦ rw absent (w.store, refl)
        | inr (key, there) ↦ rw there (_, refl)
      ]

      run_either-ChangesStore :
          (w : World S) → ChangesStore w (run_either o ep req st ctx rag_body w)
      unfolding run_either run_test settle
      run_either-ChangesStore w =
          let response = obj (ep.build_test_response ctx.domain ctx.request_id 0) in
          rw test (
            bind-ChangesStore (settle o ctx 200 response)
              (λ _. pure (success_answer 200 response ctx.request_id ctx.limits)) w
              (settle-ChangesStore 200 response w) (λ _ s. (s, refl)))

      with_provider_key-ChangesStore :
          (w : World S) → ChangesStore w (with_provider_key o ep req st ctx rag_body w)
      unfolding with_provider_key with_model_key byok_model with_slots with_limit slot_limit
      with_provider_key-ChangesStore w = rw test (rw test at (run_either-ChangesStore w))

      when_begun-ChangesStore :
          (claim : Begun) (w : World S)
          → ChangesStore w (when_begun o ep req st ctx rag_body claim w)
      unfolding when_begun
      when_begun-ChangesStore new w = with_provider_key-ChangesStore w
      when_begun-ChangesStore (replay status body) w = (w.store, refl)
      when_begun-ChangesStore mismatch w = (w.store, refl)
      when_begun-ChangesStore in_progress w = (w.store, refl)

      with_key-ChangesStore :
          (key : Option String) (w : World S)
          → ChangesStore w (with_key o ep req st ctx rag_body key w)
      unfolding with_key
      with_key-ChangesStore none w = with_provider_key-ChangesStore w
      with_key-ChangesStore (some key) w = elim (Bool-cases (is_idempotency_key key)) [
        | inl legal ↦ rw legal (
            bind-ChangesStore
              (on_store o (
                idempotency_begin o.commands o.sha o.idempotency_ttl ctx.caller.subject key
                  ctx.fingerprint))
              (when_begun o ep req st ctx rag_body) w (_, refl)
              (λ claim s. when_begun-ChangesStore claim (record w { store = s })))
        | inr illegal ↦ rw illegal (w.store, refl)
      ]

    module _ (test : is_test_mode st.identity ≡ true) where
      when_limited-ChangesStore :
          (body : Json) (rag_body : Fields) (limited : RateHeaders × Option Answer) (w : World S)
          → ChangesStore w (when_limited o ep req st body rag_body limited w)
      unfolding when_limited with_claim
      when_limited-ChangesStore body rag_body (limits, none) w =
          let ctx = context_of o req st body limits in
          with_key-ChangesStore ctx rag_body test ctx.idempotency_key w
      when_limited-ChangesStore body rag_body (limits, some answer) w = (w.store, refl)

      when_built-ChangesStore :
          (body : Json) (built : Built) (w : World S)
          → ChangesStore w (when_built o ep req st body built w)
      unfolding when_built with_limits
      when_built-ChangesStore body crashed w = (w.store, refl)
      when_built-ChangesStore body (unsupported name) w = (w.store, refl)
      when_built-ChangesStore body (query rag_body) w =
          bind-ChangesStore (on_store o (rate_limited o (caller_of st.identity) st.trace_id))
            (when_limited o ep req st body rag_body) w (_, refl)
            (λ limited s. when_limited-ChangesStore body rag_body limited (record w { store = s }))

      when_read-ChangesStore :
          (body : Option Json) (w : World S) → ChangesStore w (when_read o ep req st body w)
      unfolding when_read
      when_read-ChangesStore none w = (w.store, refl)
      when_read-ChangesStore (some body) w = when_built-ChangesStore body (ep.build_rag_body body) w

      -- A request with a test key, to whatever billable route and with whatever body, calls no service, so that it
      -- takes no provider key and no literature capacity, and emits no usage event: of the
      -- world only the store may change.
      pub handle-ChangesStore :
          (w : World S) → ChangesStore w (handle_billable_literature_call o ep req st w)
      unfolding handle_billable_literature_call
      handle-ChangesStore w = elim (Bool-cases ((caller_of st.identity).org_id == "")) [
        | inl nobody ↦ rw nobody (w.store, refl)
        | inr somebody ↦ rw somebody (when_read-ChangesStore req.body w)
      ]
