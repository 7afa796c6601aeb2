-- ===== src/V1/Billable/Handle/FailsOpen.antt =====
-- `_handle_billable_literature_call` on a store that cannot be reached, against what it is without a store.
use omnibioai_api_gateway.Prelude.{
  ℕ, ◌≡◌, refl, inl, inr, String, true, Option, none, some, ◌==◌, Bool-cases, Option-cases, arith,
  eqb,
}
use omnibioai_api_gateway.Prelude.Int.{ℤ}
use omnibioai_api_gateway.Json.{Json, Fields, null, assign, fields_of}
use omnibioai_api_gateway.Http.{Request, State}
use omnibioai_api_gateway.V1Store.{new, idempotency_begin}
use omnibioai_api_gateway.V1.{
  World, Outside, Answer, RateHeaders, Caller, on_store, call_service, caller_of, rate_limited,
  rate_budget, acquire_concurrency_slots, release_concurrency_slots,
}
use omnibioai_api_gateway.Contract.{Built, query, unsupported, crashed}
use omnibioai_api_gateway.V1.Billable.Unlimited.{serve}
use omnibioai_api_gateway.Exec.{pure}
use omnibioai_api_gateway.V1.Billable.{finally, Endpoint, Context, run_either, is_idempotency_key}
use omnibioai_api_gateway.V1.Billable.Handle.{
  with_slots, Revealed, key_of, refused, reveal_provider_key, reveal_error, with_provider_key,
  with_claim, with_limits, handle_billable_literature_call, byok_model, context_of, when_built,
  when_read, slot_limit, with_limit, with_model_key, with_key, revealed_by, when_acquired,
  when_revealed, when_begun, when_limited,
}
use omnibioai_api_gateway.Exec.{Exec}
use omnibioai_api_gateway.Text.{◌^^◌}
use omnibioai_api_gateway.Prelude.{suc, leb}
use omnibioai_api_gateway.Prelude.Int.{pos}
use omnibioai_api_gateway.V1.{tighter}
use omnibioai_api_gateway.V1Store.Down.{
  IsDown, rate_limit_for_org_down, acquire_slot_down, idempotency_begin_down,
}
use omnibioai_api_gateway.V1Store.RateLimit.Refinement.{hit_rate_limit_fails_open}
use omnibioai_api_gateway.V1.Billable.Unlimited.{Like, Agree, bind-Agree, skip-Agree}
use omnibioai_api_gateway.V1.Billable.FailsOpen.{settle-Agree, run_either-Agree}
use omnibioai_api_gateway.V1.Billable.Handle.Unlimited.{
  serve_revealed, serve_model, serve_key, refuse_with, serve_built, serve_body, serve_request,
}

-- The headers of a call that no limit has counted.
abbrev pub open_limits : ℕ → RateHeaders
open_limits n = record { limit = pos (suc n); remaining = suc n; reset = 0 }

leb_same : (n : ℕ) → leb n n ≡ true
leb_same n = ground arith

module _ {S : Type 0} (o : Outside S) (down : IsDown o.commands) (ep : Endpoint) (req : Request)
    (st : State) where
  module _ (ctx : Context) where
    finally-Agree :
        (m m' : Exec (World S) Answer) (f : Exec S (Unit {0}))
        → Agree m m'
        → Agree (finally o m (on_store o f)) m'
    unfolding finally
    finally-Agree m m' f same w s = let (t, e) = same w s in rw e (_, refl)

    acquire_slots_down :
        (limit : ℤ) (s : S) → (acquire_concurrency_slots o ctx.caller limit s).0 ≡ some true
    unfolding acquire_concurrency_slots
    acquire_slots_down limit s = elim (Bool-cases (ctx.caller.org_id == "")) [
      | inl nobody ↦ rw (acquire_slot_down o.commands down, nobody)
      | inr somebody ↦ rw (
        acquire_slot_down o.commands down ctx.caller.subject limit s,
        somebody,
        acquire_slot_down o.commands down,
      )
    ]

    with_slots-Agree :
        (rag_body : Fields)
        → Agree (with_slots o ep req st ctx rag_body) (serve o ep req st ctx rag_body)
    unfolding with_slots with_limit when_acquired
    with_slots-Agree rag_body = elim (Option-cases (slot_limit o ep ctx)) [
      | inl none_needed ↦ rw none_needed (run_either-Agree o ctx ep down req st rag_body)
      | inr (limit, there) ↦ rw there (
          skip-Agree o (acquire_concurrency_slots o ctx.caller limit) true
            (when_acquired o ep req st ctx rag_body) (serve o ep req st ctx rag_body)
            (acquire_slots_down limit)
            (finally-Agree (run_either o ep req st ctx rag_body) (serve o ep req st ctx rag_body)
              (release_concurrency_slots o ctx.caller)
              (run_either-Agree o ctx ep down req st rag_body)))
    ]

    when_revealed-Agree :
        (rag_body : Fields) (revealed : Revealed o)
        → Agree
            (when_revealed o ep req st ctx rag_body revealed)
            (serve_revealed o ep req st ctx rag_body revealed)
    unfolding when_revealed serve_revealed
    when_revealed-Agree rag_body (key_of key) =
        with_slots-Agree (assign "provider_api_key" key rag_body)
    when_revealed-Agree rag_body (refused status response) =
        settle-Agree o ctx 400 null (pure (reveal_error o ctx status response))
          (pure (reveal_error o ctx status response)) (λ w s. (s, refl))

    revealed_by-Agree : (answer : ℕ × Json) → Agree (revealed_by o answer) (revealed_by o answer)
    unfolding revealed_by
    revealed_by-Agree (status, response) w s = elim (Bool-cases (eqb status 200)) [
      | inl good ↦ elim (Option-cases (fields_of response)) [
        | inl no_object ↦ rw (good, no_object) (s, refl)
        | inr (fs, object) ↦ rw (good, object) (s, refl)
      ]
      | inr bad ↦ rw bad (s, refl)
    ]

    reveal_provider_key-Agree :
        (org_id provider : String)
        → Agree (reveal_provider_key o org_id provider) (reveal_provider_key o org_id provider)
    unfolding reveal_provider_key call_service
    reveal_provider_key-Agree org_id provider w s = elim (Bool-cases (o.reveal_secret == "")) [
      | inl unset ↦ rw unset (s, refl)
      | inr set ↦ rw set (revealed_by-Agree _ _ s)
    ]

    with_provider_key-Agree :
        (rag_body : Fields)
        → Agree
            (with_provider_key o ep req st ctx rag_body)
            (serve_model o ep req st ctx rag_body (byok_model o ctx rag_body))
    unfolding with_provider_key with_model_key serve_model
    with_provider_key-Agree rag_body = elim (Option-cases (byok_model o ctx rag_body)) [
      | inl platform ↦ rw platform (with_slots-Agree rag_body)
      | inr (model, own) ↦ rw own (
          bind-Agree (reveal_provider_key o ctx.caller.org_id model)
            (reveal_provider_key o ctx.caller.org_id model) (when_revealed o ep req st ctx rag_body)
            (serve_revealed o ep req st ctx rag_body)
            (reveal_provider_key-Agree ctx.caller.org_id model) (when_revealed-Agree rag_body))
    ]

    with_key-Agree :
        (rag_body : Fields) (key : Option String)
        → Agree (with_key o ep req st ctx rag_body key) (serve_key o ep req st ctx rag_body key)
    unfolding with_key serve_key
    with_key-Agree rag_body none = with_provider_key-Agree rag_body
    with_key-Agree rag_body (some key) = elim (Bool-cases (is_idempotency_key key)) [
      | inl legal ↦ rw legal (
          skip-Agree o
            (idempotency_begin o.commands o.sha o.idempotency_ttl ctx.caller.subject key
              ctx.fingerprint)
            new (when_begun o ep req st ctx rag_body)
            (serve_model o ep req st ctx rag_body (byok_model o ctx rag_body))
            (idempotency_begin_down o.commands down o.sha o.idempotency_ttl ctx.caller.subject key
              ctx.fingerprint)
            (unfold when_begun in with_provider_key-Agree rag_body))
      | inr illegal ↦ rw illegal (λ w s. (s, refl))
    ]

  module _ (n : ℕ) (limit : o.rate_limit_per_minute ≡ pos (suc n)) where
    rate_limited_down :
        (who : Caller) (request_id : String) (s : S)
        → (rate_limited o who request_id s).0 ≡ some (open_limits n, none)
    unfolding rate_limited rate_budget tighter
    rate_limited_down who request_id s =
        let allowed = λ (subject : String) (t : S).
          hit_rate_limit_fails_open o.commands subject n o.now t (down.get_raises _ t) in
        elim (Bool-cases (who.org_id == "")) [
          | inl nobody ↦ rw (nobody, limit, allowed who.subject s, leb_same (suc n))
          | inr somebody ↦ rw (
            somebody,
            rate_limit_for_org_down o.commands down who.org_id s,
            limit,
            allowed who.subject _,
            allowed ("org:" ^^ who.org_id) _,
            leb_same (suc n),
          )
        ]

    with_limits-Agree :
        (body : Json) (rag_body : Fields)
        → Agree
            (with_limits o ep req st body rag_body)
            (serve_built o ep req st (open_limits n) body (query rag_body))
    unfolding with_limits when_limited with_claim serve_built
    with_limits-Agree body rag_body =
        let ctx = context_of o req st body (open_limits n) in
        skip-Agree o (rate_limited o (caller_of st.identity) st.trace_id) (open_limits n, none)
          (when_limited o ep req st body rag_body)
          (serve_key o ep req st ctx rag_body ctx.idempotency_key)
          (rate_limited_down (caller_of st.identity) st.trace_id)
          (with_key-Agree ctx rag_body ctx.idempotency_key)

    when_built-Agree :
        (body : Json) (built : Built)
        → Agree
            (when_built o ep req st body built)
            (serve_built o ep req st (open_limits n) body built)
    unfolding when_built serve_built refuse_with
    when_built-Agree body crashed w s = (s, refl)
    when_built-Agree body (unsupported name) w s = (s, refl)
    when_built-Agree body (query rag_body) w s = with_limits-Agree body rag_body w s

    when_read-Agree :
        (body : Option Json)
        → Agree (when_read o ep req st body) (serve_body o ep req st (open_limits n) body)
    unfolding when_read serve_body refuse_with
    when_read-Agree none w s = (s, refl)
    when_read-Agree (some body) w s = when_built-Agree body (ep.build_rag_body body) w s

    -- Where every command of the store raises and the configured rate limit is positive, a billable request comes to
    -- what it is without a store: the same answer or exception, the same calls of the services and
    -- the same usage events, on the stream or waiting. It is not refused for its rate, its slots,
    -- its quota or its Idempotency-Key, and the headers tell the configured limit as all left.
    pub handle-serve_request :
        (w : World S)
        → Like
            (handle_billable_literature_call o ep req st w)
            (serve_request o ep req st (open_limits n) w)
    unfolding handle_billable_literature_call serve_request refuse_with
    handle-serve_request w = elim (Bool-cases ((caller_of st.identity).org_id == "")) [
      | inl nobody ↦ rw nobody (w.store, refl)
      | inr somebody ↦ rw somebody (when_read-Agree req.body w w.store)
    ]
