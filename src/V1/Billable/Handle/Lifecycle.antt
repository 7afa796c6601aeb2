-- ===== src/V1/Billable/Handle/Lifecycle.antt =====
-- Every way through `_handle_billable_literature_call`, from its last step to its first, and what it
-- records as usage.
use omnibioai_api_gateway.Prelude.{
  ℕ, ◌≡◌, refl, ap, sym, inl, inr, String, Bool, true, false, Option, none, some, List, ◌==◌,
  Bool-cases, Option-cases, arith, eqb,
}
use omnibioai_api_gateway.Prelude.Int.{ℤ}
use omnibioai_api_gateway.Json.{Json, Fields, null, assign, fields_of}
use omnibioai_api_gateway.Http.{Request, State}
use omnibioai_api_gateway.V1Store.{
  is_success, Hit, Begun, new, replay, mismatch, in_progress, idempotency_begin,
}
use omnibioai_api_gateway.V1.{
  World, Outside, UsageEvent, Answer, RateHeaders, Caller, on_store, call_service, caller_of,
  is_test_mode, rate_limited, rate_budget, limited, acquire_concurrency_slots,
  release_concurrency_slots,
}
use mathlib.Core.Option.{some-injective}
use omnibioai_api_gateway.Contract.{Built, query, unsupported, crashed}
use omnibioai_api_gateway.V1.Usage.{recorded}
use omnibioai_api_gateway.V1.Billable.{Endpoint, Context, run_either, is_idempotency_key}
use omnibioai_api_gateway.V1.Billable.Handle.{
  with_slots, Revealed, key_of, refused, reveal_provider_key, reveal_error, with_provider_key,
  with_claim, with_limits, handle_billable_literature_call, byok_model, context_of, when_built,
  when_read, slot_limit, with_limit, with_model_key, with_key, revealed_by, reveal_call,
  when_acquired, when_revealed, when_begun, when_limited,
}
use omnibioai_api_gateway.V1.Billable.Billing.{
  Quiet, HasUsage, Settled, free, bind-Quiet, then-Settled, finally-Settled,
}
use omnibioai_api_gateway.V1.Billable.TryBlock.{fail-Settled, run_either-Settled}

module _ {S : Type 0} (o : Outside S) (ep : Endpoint) where
  module _ (req : Request) (st : State) (ctx : Context) where
    abbrev After : List UsageEvent → Option Answer × World S → Type 0
    After = Settled o ep ctx.caller ctx.test_mode ctx.request_id

    when_acquired-Settled :
        HasUsage o ep
        → (rag_body : Fields) (acquired : Bool) (w : World S)
        → After (recorded o w) (when_acquired o ep req st ctx rag_body acquired w)
    unfolding when_acquired
    when_acquired-Settled has rag_body true w =
        finally-Settled o (run_either o ep req st ctx rag_body)
          (on_store o (release_concurrency_slots o ctx.caller)) w
          (run_either-Settled o ep req st ctx has rag_body w) (λ w1. refl)
    when_acquired-Settled has rag_body false w = fail-Settled o ep req st ctx 429 null _ refl w

    with_limit-Settled :
        HasUsage o ep
        → (rag_body : Fields) (limit : Option ℤ) (w : World S)
        → After (recorded o w) (with_limit o ep req st ctx rag_body limit w)
    unfolding with_limit
    with_limit-Settled has rag_body none w = run_either-Settled o ep req st ctx has rag_body w
    with_limit-Settled has rag_body (some limit) w =
        then-Settled o (on_store o (acquire_concurrency_slots o ctx.caller limit))
          (when_acquired o ep req st ctx rag_body) w (λ w1. refl)
          (when_acquired-Settled has rag_body)

    with_slots-Settled :
        HasUsage o ep
        → (rag_body : Fields) (w : World S)
        → After (recorded o w) (with_slots o ep req st ctx rag_body w)
    unfolding with_slots
    with_slots-Settled has rag_body w = with_limit-Settled has rag_body (slot_limit o ep ctx) w

    revealed_by-Quiet : (answer : ℕ × Json) → Quiet o (revealed_by o answer)
    unfolding revealed_by
    revealed_by-Quiet (status, response) w = elim (Bool-cases (eqb status 200)) [
      | inl good ↦ elim (Option-cases (fields_of response)) [
        | inl no_object ↦ rw (good, no_object)
        | inr (fs, object) ↦ rw (good, object)
      ]
      | inr bad ↦ rw bad
    ]

    reveal_provider_key-Quiet :
        (org_id provider : String) → Quiet o (reveal_provider_key o org_id provider)
    unfolding reveal_provider_key call_service
    reveal_provider_key-Quiet org_id provider w = elim (Bool-cases (o.reveal_secret == "")) [
      | inl unset ↦ rw unset
      | inr set ↦ rw set (
          bind-Quiet o (call_service o (reveal_call o org_id provider)) (revealed_by o) (λ w1. refl)
            revealed_by-Quiet w)
    ]

    pub reveal_error_fails :
        (status : ℕ) (response : Json)
        → is_success (reveal_error o ctx status response).status ≡ false
    reveal_error_fails status response = ground arith

    when_revealed-Settled :
        HasUsage o ep
        → (rag_body : Fields) (revealed : Revealed o) (w : World S)
        → After (recorded o w) (when_revealed o ep req st ctx rag_body revealed w)
    unfolding when_revealed
    when_revealed-Settled has rag_body (key_of key) w =
        with_slots-Settled has (assign "provider_api_key" key rag_body) w
    when_revealed-Settled has rag_body (refused status response) w =
        fail-Settled o ep req st ctx 400 null (reveal_error o ctx status response)
          (reveal_error_fails status response) w

    with_model_key-Settled :
        HasUsage o ep
        → (rag_body : Fields) (model : Option String) (w : World S)
        → After (recorded o w) (with_model_key o ep req st ctx rag_body model w)
    unfolding with_model_key
    with_model_key-Settled has rag_body none w = with_slots-Settled has rag_body w
    with_model_key-Settled has rag_body (some model) w =
        then-Settled o (reveal_provider_key o ctx.caller.org_id model)
          (when_revealed o ep req st ctx rag_body) w
          (reveal_provider_key-Quiet ctx.caller.org_id model) (when_revealed-Settled has rag_body)

    with_provider_key-Settled :
        HasUsage o ep
        → (rag_body : Fields) (w : World S)
        → After (recorded o w) (with_provider_key o ep req st ctx rag_body w)
    unfolding with_provider_key
    with_provider_key-Settled has rag_body w =
        with_model_key-Settled has rag_body (byok_model o ctx rag_body) w

    when_begun-Settled :
        HasUsage o ep
        → (rag_body : Fields) (claim : Begun) (w : World S)
        → After (recorded o w) (when_begun o ep req st ctx rag_body claim w)
    unfolding when_begun
    when_begun-Settled has rag_body new w = with_provider_key-Settled has rag_body w
    when_begun-Settled has rag_body (replay status body) w = free (inr (inl refl)) refl
    when_begun-Settled has rag_body mismatch w = free (inr (inr refl)) refl
    when_begun-Settled has rag_body in_progress w = free (inr (inr refl)) refl

    with_key-Settled :
        HasUsage o ep
        → (rag_body : Fields) (key : Option String) (w : World S)
        → After (recorded o w) (with_key o ep req st ctx rag_body key w)
    unfolding with_key
    with_key-Settled has rag_body none w = with_provider_key-Settled has rag_body w
    with_key-Settled has rag_body (some key) w = elim (Bool-cases (is_idempotency_key key)) [
      | inl legal ↦ rw legal (
          then-Settled o
            (on_store o (
              idempotency_begin o.commands o.sha o.idempotency_ttl ctx.caller.subject key
                ctx.fingerprint))
            (when_begun o ep req st ctx rag_body) w (λ w1. refl) (when_begun-Settled has rag_body))
      | inr illegal ↦ rw illegal (free (inr (inr refl)) refl)
    ]

    with_claim-Settled :
        HasUsage o ep
        → (rag_body : Fields) (w : World S)
        → After (recorded o w) (with_claim o ep req st ctx rag_body w)
    unfolding with_claim
    with_claim-Settled has rag_body w = with_key-Settled has rag_body ctx.idempotency_key w

  module _ (req : Request) (st : State) where
    -- From `w` a request came to a result and a state.
    abbrev pub Finished : World S → Option Answer × World S → Type 0
    Finished w =
        Settled o ep (caller_of st.identity) (is_test_mode st.identity) st.trace_id (recorded o w)

    when_limited-Settled :
        HasUsage o ep
        → (body : Json) (rag_body : Fields) (limited : RateHeaders × Option Answer) (w : World S)
        → ((a : Answer) → limited.1 ≡ some a → is_success a.status ≡ false)
        → Finished w (when_limited o ep req st body rag_body limited w)
    unfolding when_limited
    when_limited-Settled has body rag_body (limits, none) w h =
        with_claim-Settled req st (context_of o req st body limits) has rag_body w
    when_limited-Settled has body rag_body (limits, some answer) w h =
        free (inr (inr (h answer refl))) refl

    pub limited_fails :
        (c : Caller) (limit : ℤ) (hit : Hit) (a : Answer)
        → (limited o c st.trace_id limit hit).1 ≡ some a
        → is_success a.status ≡ false
    limited_fails c limit (true, remaining, reset) a h = cc
    limited_fails c limit (false, remaining, reset) a h =
        ap (λ (x : Answer). is_success x.status) (sym (some-injective _ _ h))

    with_limits-Settled :
        HasUsage o ep
        → (body : Json) (rag_body : Fields) (w : World S)
        → Finished w (with_limits o ep req st body rag_body w)
    unfolding with_limits rate_limited
    with_limits-Settled has body rag_body w =
        let c = caller_of st.identity in
        elim (Option-cases (rate_budget o c w.store).0) [
          | inl raised ↦ rw raised (free tt refl)
          | inr ((limit, hit), known) ↦ rw known (
              when_limited-Settled has body rag_body (limited o c st.trace_id limit hit)
                (record w { store = (rate_budget o c w.store).1 }) (limited_fails c limit hit))
        ]

    when_built-Settled :
        HasUsage o ep
        → (body : Json) (built : Built) (w : World S)
        → Finished w (when_built o ep req st body built w)
    unfolding when_built
    when_built-Settled has body crashed w = free tt refl
    when_built-Settled has body (unsupported name) w = free (inr (inr refl)) refl
    when_built-Settled has body (query rag_body) w = with_limits-Settled has body rag_body w

    when_read-Settled :
        HasUsage o ep
        → (body : Option Json) (w : World S) → Finished w (when_read o ep req st body w)
    unfolding when_read
    when_read-Settled has none w = free (inr (inr refl)) refl
    when_read-Settled has (some body) w = when_built-Settled has body (ep.build_rag_body body) w

    -- The whole of a call, for an endpoint whose responses have an object as usage.
    pub handle-Settled :
        HasUsage o ep → (w : World S) → Finished w (handle_billable_literature_call o ep req st w)
    unfolding handle_billable_literature_call
    handle-Settled has w = elim (Bool-cases ((caller_of st.identity).org_id == "")) [
      | inl nobody ↦ rw nobody (free (inr (inr refl)) refl)
      | inr somebody ↦ rw somebody (when_read-Settled has req.body w)
    ]
