-- ===== src/V1/Billable/Handle/Balanced.antt =====
-- The steps of `_handle_billable_literature_call` once the rate limits have let it through, and what it leaves of the quota and the slots.
use omnibioai_api_gateway.Prelude.{
  ◌≡◌, refl, inl, inr, String, true, false, Option, none, some, ◌==◌, Bool-cases,
}
use omnibioai_api_gateway.Prelude.Int.{ℤ, pos, ◌+ℤ◌}
use omnibioai_api_gateway.Json.{Fields, null, assign}
use omnibioai_api_gateway.Http.{Request, State}
use omnibioai_api_gateway.Redis.Steady.{Steady}
use omnibioai_api_gateway.V1Store.{Begun, new, replay, mismatch, in_progress, idempotency_begin}
use omnibioai_api_gateway.V1Store.Frame.{idempotency_begin-Keeps}
use omnibioai_api_gateway.V1.{World, Outside, Answer, on_store}
use omnibioai_api_gateway.V1.Balance.{org_subject, idem-Leaves}
use omnibioai_api_gateway.V1.Balance.Steps.{
  Standing, acquire_slots-Standing, release_slots-Standing,
}
use omnibioai_api_gateway.V1.Billable.{Endpoint, Context, is_idempotency_key, finally}
use omnibioai_api_gateway.V1.Billable.Balanced.{
  At, Balanced, unpaid, paid, then-Balanced, fail-Balanced, run_either-Balanced,
}
use omnibioai_api_gateway.V1.Billable.Handle.{
  with_slots, Revealed, key_of, refused, reveal_provider_key, reveal_error, with_provider_key,
  byok_model, slot_limit, with_limit, with_model_key, with_key, when_acquired, when_revealed,
  when_begun,
}
use omnibioai_api_gateway.V1.Billable.Handle.Frame.{reveal_provider_key-Keeps}
use omnibioai_api_gateway.V1.Billable.Handle.Lifecycle.{reveal_error_fails}

module _ {S : Type 0} (o : Outside S) (store : Steady o.commands) (ep : Endpoint) where
  module _ (req : Request) (st : State) (ctx : Context)
      (distinct : (ctx.caller.subject == org_subject ctx.caller.org_id) ≡ false)
      (known : (ctx.caller.org_id == "") ≡ false) (q : Option ℤ) (a b : ℤ) where
    abbrev Before : World S → Type 0
    Before = At o store ep ctx q a b

    abbrev After : Option Answer × World S → Type 0
    After = Balanced o store ep ctx q a b

    -- With both slots taken, the `finally` gives them back, whatever the call came to.
    granted-Balanced :
        (rag_body : Fields) (w : World S)
        → At o store ep ctx q (a +ℤ pos 1) (b +ℤ pos 1) w
        → After (when_acquired o ep req st ctx rag_body true w)
    unfolding when_acquired finally
    granted-Balanced rag_body w h =
        elim (run_either-Balanced o store ep ctx q (a +ℤ pos 1) (b +ℤ pos 1) req st rag_body w h) [
          | unpaid free held ↦
              unpaid free
                (release_slots-Standing o store ctx.caller ep.resource distinct known q a b _ held)
          | paid real left charge held ↦
              paid real left charge
                (release_slots-Standing o store ctx.caller ep.resource distinct known _ a b _ held)
        ]

    with_limit-Balanced :
        (rag_body : Fields) (limit : Option ℤ) (w : World S)
        → Before w
        → After (with_limit o ep req st ctx rag_body limit w)
    unfolding with_limit when_acquired
    with_limit-Balanced rag_body none w h =
        run_either-Balanced o store ep ctx q a b req st rag_body w h
    with_limit-Balanced rag_body (some limit) w h =
        let (granted, answered, after) =
          acquire_slots-Standing o store ctx.caller ep.resource distinct known limit q a b w.store
            h in
        elim (Bool-cases granted) [
          | inl yes_both ↦
              rw (answered, yes_both) (granted-Balanced rag_body _ (rw yes_both at after))
          | inr no_slot ↦
              rw (answered, no_slot)
                (fail-Balanced o store ep ctx q a b 429 null _ refl _ (rw no_slot at after))
        ]

    with_slots-Balanced :
        (rag_body : Fields) (w : World S) → Before w → After (with_slots o ep req st ctx rag_body w)
    unfolding with_slots
    with_slots-Balanced rag_body w h = with_limit-Balanced rag_body (slot_limit o ep ctx) w h

    when_revealed-Balanced :
        (rag_body : Fields) (revealed : Revealed o) (w : World S)
        → Before w
        → After (when_revealed o ep req st ctx rag_body revealed w)
    unfolding when_revealed
    when_revealed-Balanced rag_body (key_of key) w h =
        with_slots-Balanced (assign "provider_api_key" key rag_body) w h
    when_revealed-Balanced rag_body (refused status response) w h =
        fail-Balanced o store ep ctx q a b 400 null (reveal_error o ctx status response)
          (reveal_error_fails o ep req st ctx status response) w h

    with_model_key-Balanced :
        (rag_body : Fields) (model : Option String) (w : World S)
        → Before w
        → After (with_model_key o ep req st ctx rag_body model w)
    unfolding with_model_key
    with_model_key-Balanced rag_body none w h = with_slots-Balanced rag_body w h
    with_model_key-Balanced rag_body (some model) w h =
        then-Balanced o store ep ctx q a b (reveal_provider_key o ctx.caller.org_id model)
          (when_revealed o ep req st ctx rag_body) w h
          (reveal_provider_key-Keeps o (Standing o store ctx.caller ep.resource q a b)
            ctx.caller.org_id model)
          (when_revealed-Balanced rag_body)

    with_provider_key-Balanced :
        (rag_body : Fields) (w : World S)
        → Before w
        → After (with_provider_key o ep req st ctx rag_body w)
    unfolding with_provider_key
    with_provider_key-Balanced rag_body w h =
        with_model_key-Balanced rag_body (byok_model o ctx rag_body) w h

    when_begun-Balanced :
        (rag_body : Fields) (claim : Begun) (w : World S)
        → Before w
        → After (when_begun o ep req st ctx rag_body claim w)
    unfolding when_begun
    when_begun-Balanced rag_body new w h = with_provider_key-Balanced rag_body w h
    when_begun-Balanced rag_body (replay status body) w h = unpaid (inr (inl refl)) h
    when_begun-Balanced rag_body mismatch w h = unpaid (inr (inr refl)) h
    when_begun-Balanced rag_body in_progress w h = unpaid (inr (inr refl)) h

    pub with_key-Balanced :
        (rag_body : Fields) (key : Option String) (w : World S)
        → Before w
        → After (with_key o ep req st ctx rag_body key w)
    unfolding with_key
    with_key-Balanced rag_body none w h = with_provider_key-Balanced rag_body w h
    with_key-Balanced rag_body (some key) w h = elim (Bool-cases (is_idempotency_key key)) [
      | inl legal ↦ rw legal (
          then-Balanced o store ep ctx q a b
            (on_store o (
              idempotency_begin o.commands o.sha o.idempotency_ttl ctx.caller.subject key
                ctx.fingerprint))
            (when_begun o ep req st ctx rag_body) w h
            (λ t.
              idempotency_begin-Keeps o.commands (Standing o store ctx.caller ep.resource q a b)
                o.sha o.idempotency_ttl ctx.caller.subject key
                (idem-Leaves store ctx.caller.subject ctx.caller.org_id ep.resource q a b o.sha
                  o.idempotency_ttl key)
                ctx.fingerprint t.store)
            (when_begun-Balanced rag_body))
      | inr illegal ↦ rw illegal (unpaid (inr (inr refl)) h)
    ]
