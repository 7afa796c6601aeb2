-- ===== src/V1/Billable/TryBlock.antt =====
-- The `try` block of `_handle_billable_literature_call`, and what it records as usage.
use omnibioai_api_gateway.Prelude.{
  ℕ, ◌≡◌, refl, inl, inr, String, Bool, true, false, Option, some, List, Bool-cases, arith,
}
use omnibioai_api_gateway.Json.{Json, Fields, obj, null}
use omnibioai_api_gateway.Exec.{pure, ◌>>◌}
use omnibioai_api_gateway.Http.{Request, State}
use omnibioai_api_gateway.V1Store.{is_success, reserve_quota, release_quota}
use omnibioai_api_gateway.V1.{
  World, Outside, UsageEvent, Answer, RateHeaders, on_store, upstream_error, success_answer,
}
use omnibioai_api_gateway.V1.Usage.{recorded}
use omnibioai_api_gateway.V1.Billable.{
  Endpoint, Context, settle, forward_to, give_up, run_call, run_test, run_either, conclude,
  when_reserved,
}
use omnibioai_api_gateway.V1.Billable.Billing.{
  HasUsage, Settled, free, settle-Quiet, forward_to-Quiet, then-Settled, deliver-Settled,
}

-- An upstream failure stays an error for the caller.
pub upstream_error_fails :
    (status : ℕ) (response : Json) (request_id : String) (limits : RateHeaders)
    → is_success status ≡ false
    → is_success (upstream_error status response request_id limits).status ≡ false
unfolding upstream_error
upstream_error_fails status response request_id limits h = ground arith

module _ {S : Type 0} (o : Outside S) (ep : Endpoint) where
  module _ (req : Request) (st : State) (ctx : Context) where
    abbrev After : List UsageEvent → Option Answer × World S → Type 0
    After = Settled o ep ctx.caller ctx.test_mode ctx.request_id

    -- The claim is given up, and the call ends with an error.
    pub fail-Settled :
        (status : ℕ) (body : Json) (a : Answer)
        → is_success a.status ≡ false
        → (w : World S) → After (recorded o w) ((settle o ctx status body >> pure a) w)
    fail-Settled status body a bad w =
        then-Settled o (settle o ctx status body) (λ _. pure a) w (settle-Quiet o ctx status body)
          (λ _ w1. free (inr (inr bad)) refl)

    conclude-Settled :
        HasUsage o ep
        → (answer : ℕ × Json) → ctx.test_mode ≡ false
        → (w : World S) → After (recorded o w) (conclude o ep ctx answer w)
    unfolding conclude give_up
    conclude-Settled has (status, response) real w = elim (Bool-cases (is_success status)) [
      | inl good ↦ rw good (deliver-Settled o ep ctx has status response good real w)
      | inr bad ↦ rw bad (
          then-Settled o (on_store o (release_quota o.commands ctx.caller.org_id ep.resource))
            (λ _.
              settle o ctx status response
              >> pure (upstream_error status response ctx.request_id ctx.limits))
            w (λ w1. refl)
            (λ _.
              fail-Settled status response
                (upstream_error status response ctx.request_id ctx.limits)
                (upstream_error_fails status response ctx.request_id ctx.limits bad)))
    ]

    when_reserved-Settled :
        HasUsage o ep
        → (rag_body : Fields) → ctx.test_mode ≡ false
        → (reserved : Bool) (w : World S)
        → After (recorded o w) (when_reserved o ep req st ctx rag_body reserved w)
    unfolding when_reserved
    when_reserved-Settled has rag_body real true w =
        then-Settled o (forward_to o req st "rag" "POST" "v1/query" (some (obj rag_body)))
          (conclude o ep ctx) w
          (forward_to-Quiet o req st "rag" "POST" "v1/query" (some (obj rag_body)))
          (λ answer. conclude-Settled has answer real)
    when_reserved-Settled has rag_body real false w = fail-Settled 402 null _ refl w

    run_call-Settled :
        HasUsage o ep
        → (rag_body : Fields) → ctx.test_mode ≡ false
        → (w : World S) → After (recorded o w) (run_call o ep req st ctx rag_body w)
    unfolding run_call
    run_call-Settled has rag_body real w =
        then-Settled o (on_store o (reserve_quota o.commands ctx.caller.org_id ep.resource))
          (when_reserved o ep req st ctx rag_body) w (λ w1. refl)
          (when_reserved-Settled has rag_body real)

    run_test-Settled :
        ctx.test_mode ≡ true → (w : World S) → After (recorded o w) (run_test o ep ctx w)
    unfolding run_test
    run_test-Settled test w =
        let response = obj (ep.build_test_response ctx.domain ctx.request_id 0) in
        then-Settled o (settle o ctx 200 response)
          (λ _. pure (success_answer 200 response ctx.request_id ctx.limits)) w
          (settle-Quiet o ctx 200 response) (λ _ w1. free (inl test) refl)

    pub run_either-Settled :
        HasUsage o ep
        → (rag_body : Fields) (w : World S)
        → After (recorded o w) (run_either o ep req st ctx rag_body w)
    unfolding run_either
    run_either-Settled has rag_body w = elim (Bool-cases ctx.test_mode) [
      | inl test ↦ rw test (rw test at (run_test-Settled test w))
      | inr real ↦ rw real (rw real at (run_call-Settled has rag_body real w))
    ]
