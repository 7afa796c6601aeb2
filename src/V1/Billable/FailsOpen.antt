-- ===== src/V1/Billable/FailsOpen.antt =====
-- The `try` block of `_handle_billable_literature_call` on a store that cannot be reached.
use omnibioai_api_gateway.Prelude.{ℕ, refl, inl, inr, true, some, Bool-cases, Option-cases}
use omnibioai_api_gateway.Json.{Json, Fields, obj, fields_of}
use omnibioai_api_gateway.Exec.{Exec, pure, or_raise, ◌>>=◌, ◌>>◌}
use omnibioai_api_gateway.Http.{Request, State}
use omnibioai_api_gateway.V1Store.{is_success, reserve_quota, release_quota, idempotency_finish}
use omnibioai_api_gateway.V1Store.Down.{
  IsDown, finish_returns, release_quota_returns, reserve_quota_down,
}
use omnibioai_api_gateway.V1.{World, Outside, success_answer, upstream_error}
use omnibioai_api_gateway.V1.Billable.{
  Endpoint, Context, settle, emit_all, forward_to, deliver, give_up, run_call, run_test, run_either,
  conclude, when_reserved,
}
use omnibioai_api_gateway.V1.Billable.Unlimited.{
  pass_on, serve, Agree, pure-Agree, bind-Agree, skip-Agree, emit_all-Agree, forward_to-Agree,
}

module _ {S : Type 0} (o : Outside S) (ctx : Context) where
  -- A claim that is finished or given up changes nothing but the store.
  pub settle-Agree :
      {A : Type 0} (status : ℕ) (body : Json) (m m' : Exec (World S) A)
      → Agree m m'
      → Agree (settle o ctx status body >> m) m'
  unfolding settle
  settle-Agree status body m m' rest w s = elim (Option-cases ctx.idempotency_key) [
    | inl absent ↦ rw absent (rest w s)
    | inr (key, there) ↦ rw there (
        skip-Agree o
          (idempotency_finish o.commands o.sha o.idempotency_ttl ctx.caller.subject key
            ctx.fingerprint status body)
          tt (λ _. m) m'
          (finish_returns o.commands o.sha o.idempotency_ttl ctx.caller.subject key ctx.fingerprint
            status body)
          rest w s)
  ]

  module _ (ep : Endpoint) where
    conclude-Agree :
        (answer : ℕ × Json) → Agree (conclude o ep ctx answer) (pass_on o ep ctx answer)
    unfolding conclude deliver give_up pass_on
    conclude-Agree (status, response) w s = elim (Bool-cases (is_success status)) [
      | inl good ↦
          let ending = λ (public : Fields).
            emit_all o ep ctx public
            >> pure (success_answer status (obj public) ctx.request_id ctx.limits) in
          let built = λ (result : Fields).
            or_raise {S = World S}
              (ep.build_public_response result ctx.domain ctx.request_id o.latency_ms) in
          rw good (
            bind-Agree (or_raise (fields_of response)) (or_raise (fields_of response))
              (λ result.
                built result >>= λ public. settle o ctx status (obj public) >> ending public)
              (λ result. built result >>= ending) (pure-Agree (fields_of response))
              (λ result.
                bind-Agree (built result) (built result)
                  (λ public. settle o ctx status (obj public) >> ending public) ending
                  (pure-Agree _)
                  (λ public. settle-Agree status (obj public) (ending public) (ending public) (
                    bind-Agree (emit_all o ep ctx public) (emit_all o ep ctx public) _ _
                      (emit_all-Agree o ep ctx public) (λ sent w s. (s, refl)))))
              w s)
      | inr bad ↦
          let ending = pure (upstream_error status response ctx.request_id ctx.limits) in
          rw bad (
            skip-Agree o (release_quota o.commands ctx.caller.org_id ep.resource) tt
              (λ _. settle o ctx status response >> ending) ending
              (release_quota_returns o.commands ctx.caller.org_id ep.resource)
              (settle-Agree status response ending ending (λ w s. (s, refl))) w s)
    ]

    module _ (down : IsDown o.commands) (req : Request) (st : State) (rag_body : Fields) where
      run_call-Agree :
          Agree
            (run_call o ep req st ctx rag_body)
            (forward_to o req st "rag" "POST" "v1/query" (some (obj rag_body)) >>= pass_on o ep ctx)
      unfolding run_call when_reserved
      run_call-Agree =
          let asked = forward_to o req st "rag" "POST" "v1/query" (some (obj rag_body)) in
          skip-Agree o (reserve_quota o.commands ctx.caller.org_id ep.resource) true
            (when_reserved o ep req st ctx rag_body) (asked >>= pass_on o ep ctx)
            (reserve_quota_down o.commands down ctx.caller.org_id ep.resource)
            (bind-Agree asked asked (conclude o ep ctx) (pass_on o ep ctx)
              (forward_to-Agree o req st "rag" "POST" "v1/query" (some (obj rag_body)))
              conclude-Agree)

      run_test-Agree : Agree (run_test o ep ctx) (
          pure (
            success_answer 200
              (obj (ep.build_test_response ctx.domain ctx.request_id 0))
              ctx.request_id
              ctx.limits))
      unfolding run_test
      run_test-Agree =
          let response = obj (ep.build_test_response ctx.domain ctx.request_id 0) in
          let ending = pure (success_answer 200 response ctx.request_id ctx.limits) in
          settle-Agree 200 response ending ending (λ w s. (s, refl))

      pub run_either-Agree :
          Agree (run_either o ep req st ctx rag_body) (serve o ep req st ctx rag_body)
      unfolding run_either serve
      run_either-Agree w s = elim (Bool-cases ctx.test_mode) [
        | inl test ↦ rw test (rw test at (run_test-Agree w s))
        | inr real ↦ rw real (rw real at (run_call-Agree w s))
      ]
