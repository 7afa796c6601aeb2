-- ===== src/V1/Billable/Handle/Remembered.antt =====
-- What a call of `_handle_billable_literature_call` with an Idempotency-Key leaves under that key.
use omnibioai_api_gateway.Prelude.{
  ◌≤◌, ◌≡◌, refl, ap, inl, inr, String, Bool, true, false, Option, none, some, Bool-cases,
}
use omnibioai_api_gateway.Prelude.Int.{ℤ}
use omnibioai_api_gateway.Json.{Fields, null, assign}
use omnibioai_api_gateway.Http.{Request, State}
use mathlib.Core.Option.{some-injective}
use omnibioai_api_gateway.Redis.Steady.{Steady, IsUp-Leaves, other-Leaves}
use omnibioai_api_gateway.V1.Frame.{acquire_slots-Keeps, release_slots-Keeps}
use omnibioai_api_gateway.V1Store.Keys.{concurrency_ne_idem}
use omnibioai_api_gateway.V1.Billable.Handle.Frame.{reveal_provider_key-Keeps}
use omnibioai_api_gateway.V1.Billable.Remembered.{
  IsUp, HasClaim, Ends, then-Remembered, fail-Remembered, failure-Remembered, run_either-Remembered,
}
use omnibioai_api_gateway.V1Store.{
  concurrency_key, is_success, Begun, new, replay, mismatch, in_progress, idempotency_begin,
}
use omnibioai_api_gateway.V1Store.Frame.{idempotency_begin-Keeps}
use omnibioai_api_gateway.V1.{World, Outside, Answer, on_store, acquire_concurrency_slots}
use omnibioai_api_gateway.V1.Billable.{Endpoint, Context, is_idempotency_key, finally}
use omnibioai_api_gateway.V1.Billable.Handle.{
  with_slots, Revealed, key_of, refused, reveal_provider_key, reveal_error, with_provider_key,
  byok_model, slot_limit, with_limit, with_model_key, with_key, when_acquired, when_revealed,
  when_begun,
}
use omnibioai_api_gateway.V1.Billable.Handle.Lifecycle.{reveal_error_fails}

module _ {S : Type 0} (o : Outside S) (store : Steady o.commands) (lasting : 1 ≤ o.idempotency_ttl)
    (ep : Endpoint) (req : Request) where
  module _ (st : State) (ctx : Context) (key : String)
      (there : ctx.idempotency_key ≡ some key) where
    abbrev pub After : Option Answer × World S → Type 0
    After = Ends o store lasting ctx key there

    abbrev Up : World S → Type 0
    Up = IsUp o store

    error-Remembered : (x : Answer) (w : World S) → is_success x.status ≡ false → After (some x, w)
    error-Remembered = failure-Remembered o store ctx.caller.subject key ctx.fingerprint

    when_acquired-Remembered :
        (rag_body : Fields) (acquired : Bool) (w : World S)
        → Up w
        → After (when_acquired o ep req st ctx rag_body acquired w)
    unfolding when_acquired finally
    when_acquired-Remembered rag_body true w up = λ a e good fresh.
        let ended =
          run_either-Remembered o store lasting ctx key there ep req st rag_body w up a e good
            fresh in
        release_slots-Keeps o
          (HasClaim o store ctx.caller.subject key ctx.fingerprint a.status a.body) ctx.caller
          (λ x.
            other-Leaves store _ _ (concurrency_key o.commands x)
              (concurrency_ne_idem o.commands o.sha o.idempotency_ttl ctx.caller.subject key x))
          _ ended
    when_acquired-Remembered rag_body false w up =
        fail-Remembered o store lasting ctx key there 429 null _ refl w up

    with_limit-Remembered :
        (rag_body : Fields) (limit : Option ℤ) (w : World S)
        → Up w
        → After (with_limit o ep req st ctx rag_body limit w)
    unfolding with_limit
    with_limit-Remembered rag_body none w up =
        run_either-Remembered o store lasting ctx key there ep req st rag_body w up
    with_limit-Remembered rag_body (some limit) w up =
        then-Remembered o store lasting ctx key there
          (on_store o (acquire_concurrency_slots o ctx.caller limit))
          (when_acquired o ep req st ctx rag_body) w up
          (λ t.
            acquire_slots-Keeps o store.IsUp ctx.caller (λ x. IsUp-Leaves store _) limit t.store)
          (when_acquired-Remembered rag_body)

    with_slots-Remembered :
        (rag_body : Fields) (w : World S) → Up w → After (with_slots o ep req st ctx rag_body w)
    unfolding with_slots
    with_slots-Remembered rag_body w up = with_limit-Remembered rag_body (slot_limit o ep ctx) w up

    when_revealed-Remembered :
        (rag_body : Fields) (revealed : Revealed o) (w : World S)
        → Up w
        → After (when_revealed o ep req st ctx rag_body revealed w)
    unfolding when_revealed
    when_revealed-Remembered rag_body (key_of k) w up =
        with_slots-Remembered (assign "provider_api_key" k rag_body) w up
    when_revealed-Remembered rag_body (refused status response) w up =
        fail-Remembered o store lasting ctx key there 400 null (reveal_error o ctx status response)
          (reveal_error_fails o ep req st ctx status response) w up

    with_model_key-Remembered :
        (rag_body : Fields) (model : Option String) (w : World S)
        → Up w
        → After (with_model_key o ep req st ctx rag_body model w)
    unfolding with_model_key
    with_model_key-Remembered rag_body none w up = with_slots-Remembered rag_body w up
    with_model_key-Remembered rag_body (some model) w up =
        then-Remembered o store lasting ctx key there
          (reveal_provider_key o ctx.caller.org_id model) (when_revealed o ep req st ctx rag_body) w
          up (reveal_provider_key-Keeps o store.IsUp ctx.caller.org_id model)
          (when_revealed-Remembered rag_body)

    when_begun-Remembered :
        (rag_body : Fields) (claim : Begun) (w : World S)
        → Up w
        → After (when_begun o ep req st ctx rag_body claim w)
    unfolding when_begun with_provider_key
    when_begun-Remembered rag_body new w up =
        with_model_key-Remembered rag_body (byok_model o ctx rag_body) w up
    when_begun-Remembered rag_body (replay status body) w up =
        λ a e good fresh. cc (ap (λ (x : Answer). x.replayed) (some-injective _ _ e))
    when_begun-Remembered rag_body mismatch w up = error-Remembered _ w refl
    when_begun-Remembered rag_body in_progress w up = error-Remembered _ w refl

    pub with_key-Remembered :
        (rag_body : Fields) (w : World S)
        → Up w
        → After (with_key o ep req st ctx rag_body (some key) w)
    unfolding with_key
    with_key-Remembered rag_body w up = elim (Bool-cases (is_idempotency_key key)) [
      | inl legal ↦ rw legal (
          then-Remembered o store lasting ctx key there
            (on_store o (
              idempotency_begin o.commands o.sha o.idempotency_ttl ctx.caller.subject key
                ctx.fingerprint))
            (when_begun o ep req st ctx rag_body) w up
            (λ t.
              idempotency_begin-Keeps o.commands store.IsUp o.sha o.idempotency_ttl
                ctx.caller.subject key (IsUp-Leaves store _) ctx.fingerprint t.store)
            (when_begun-Remembered rag_body))
      | inr illegal ↦ rw illegal (error-Remembered _ w refl)
    ]
