-- ===== src/V1/Billable/Balanced.antt =====
-- The `try` block of `_handle_billable_literature_call`, and what it leaves of the quota and the slots.
use omnibioai_api_gateway.Prelude.{
  ℕ, ◌≡◌, refl, inl, inr, Bool, true, false, Option, none, some, Bool-cases,
}
use omnibioai_api_gateway.Prelude.Int.{ℤ}
use omnibioai_api_gateway.Json.{Json, Fields, obj, null, fields_of}
use omnibioai_api_gateway.Exec.{Exec, pure, or_raise, ◌>>=◌, ◌>>◌}
use omnibioai_api_gateway.Exec.Keeps.{Keeps, bind-Ends}
use omnibioai_api_gateway.Http.{Request, State}
use omnibioai_api_gateway.Redis.Steady.{Steady}
use omnibioai_api_gateway.V1Store.{is_success}
use omnibioai_api_gateway.V1.{
  World, Outside, Answer, Caller, call_service, upstream_error, success_answer,
}
use omnibioai_api_gateway.V1.Balance.{can_take, taken, idem-Leaves}
use omnibioai_api_gateway.V1.Balance.Steps.{
  Standing, reserve_quota-Standing, release_quota-Standing,
}
use omnibioai_api_gateway.V1.Billable.{
  Endpoint, Context, settle, emit_all, forward_to, deliver, give_up, run_call, run_test, run_either,
  conclude, when_reserved,
}
use omnibioai_api_gateway.V1.Billable.Frame.{settle-Keeps, emit_all-Keeps}
use omnibioai_api_gateway.V1.Billable.Billing.{IsFree}
use omnibioai_api_gateway.V1.Billable.TryBlock.{upstream_error_fails}

-- A result after which the unit stays taken: a success that is no replay, or an exception.
abbrev pub IsPaid : Option Answer → Type 0
IsPaid none = Unit
IsPaid (some a) = (a.replayed ≡ false) × (is_success a.status ≡ true)

module _ {S : Type 0} (o : Outside S) (store : Steady o.commands) (ep : Endpoint) where
  module _ (who : Caller) (test_mode : Bool) where
    -- The counters in a state of the world.
    abbrev pub CountersAt : Option ℤ → ℤ → ℤ → World S → Type 0
    CountersAt q a b w = Standing o store who ep.resource q a b w.store

    -- From `q` units and `a` and `b` requests in flight a call came to a result and a state: it is free, and all
    -- is as it was, or it is no test, it is paid for with one unit that was there, and
    -- the requests in flight are as they were.
    pub data Conserved (q : Option ℤ) (a b : ℤ) (x : Option Answer × World S) : Type 0 where
      unpaid : IsFree test_mode x.0 → CountersAt q a b x.1 → Conserved q a b x
      paid :
          test_mode ≡ false
          → can_take q ≡ true
          → IsPaid x.0
          → CountersAt (taken q) a b x.1
          → Conserved q a b x

module _ {S : Type 0} (o : Outside S) (store : Steady o.commands) (ep : Endpoint)
    (ctx : Context) where
  abbrev pub At : Option ℤ → ℤ → ℤ → World S → Type 0
  At = CountersAt o store ep ctx.caller ctx.test_mode

  abbrev pub Balanced : Option ℤ → ℤ → ℤ → Option Answer × World S → Type 0
  Balanced = Conserved o store ep ctx.caller ctx.test_mode

  pub settle-At :
      (q : Option ℤ) (a b : ℤ) (status : ℕ) (body : Json)
      → Keeps (At q a b) (settle o ctx status body)
  settle-At q a b = settle-Keeps o (Standing o store ctx.caller ep.resource q a b) ctx (
      idem-Leaves store ctx.caller.subject ctx.caller.org_id ep.resource q a b o.sha
        o.idempotency_ttl)

  module _ (q : Option ℤ) (a b : ℤ) where
    -- What follows a step that moves no counter, before a unit is taken.
    pub then-Balanced :
        {A : Type 0} (m : Exec (World S) A) (f : A → Exec (World S) Answer) (w : World S)
        → At q a b w
        → Keeps (At q a b) m
        → ((x : A) (t : World S) → At q a b t → Balanced q a b (f x t))
        → Balanced q a b ((m >>= f) w)
    then-Balanced m f w h kept rest =
        bind-Ends (At q a b) (Balanced q a b) m f w h kept (λ t same. unpaid tt same) rest

    pub fail-Balanced :
        (status : ℕ) (body : Json) (x : Answer)
        → is_success x.status ≡ false
        → (w : World S) → At q a b w
        → Balanced q a b ((settle o ctx status body >> pure x) w)
    fail-Balanced status body x bad w h =
        then-Balanced (settle o ctx status body) (λ _. pure x) w h (settle-At q a b status body)
          (λ done t same. unpaid (inr (inr bad)) same)

    module _ (real : ctx.test_mode ≡ false) (left : can_take q ≡ true) where
      -- The end of a call that has taken a unit and succeeds.
      deliver-Balanced :
          (status : ℕ) (response : Json)
          → is_success status ≡ true
          → (w : World S) → At (taken q) a b w
          → Balanced q a b (deliver o ep ctx status response w)
      unfolding deliver
      deliver-Balanced status response good w h =
          let P = At (taken q) a b in
          let raises = λ (t : World S) (same : P t). paid real left tt same in
          bind-Ends P (Balanced q a b) (or_raise (fields_of response)) _ w h (λ t same. same) raises
            (λ result t same.
              bind-Ends P (Balanced q a b)
                (or_raise (ep.build_public_response result ctx.domain ctx.request_id o.latency_ms))
                _ t same (λ t same. same) raises
                (λ public t same.
                  bind-Ends P (Balanced q a b) (settle o ctx status (obj public)) _ t same
                    (settle-At (taken q) a b status (obj public)) raises
                    (λ done t same.
                      bind-Ends P (Balanced q a b) (emit_all o ep ctx public) _ t same
                        (emit_all-Keeps o (Standing o store ctx.caller ep.resource (taken q) a b)
                          ctx ep public)
                        raises (λ done t same. paid real left (refl, good) same))))

      -- The end of one that fails: the unit comes back.
      give_up-Balanced :
          (status : ℕ) (response : Json)
          → is_success status ≡ false
          → (w : World S) → At (taken q) a b w
          → Balanced q a b (give_up o ep ctx status response w)
      unfolding give_up
      give_up-Balanced status response bad w h =
          let (done, back) =
            release_quota-Standing o store ctx.caller ep.resource q a b w.store h in
          rw done (
            fail-Balanced status response (upstream_error status response ctx.request_id ctx.limits)
              (upstream_error_fails status response ctx.request_id ctx.limits bad) _ back)

      conclude-Balanced :
          (answer : ℕ × Json) (w : World S)
          → At (taken q) a b w
          → Balanced q a b (conclude o ep ctx answer w)
      unfolding conclude
      conclude-Balanced (status, response) w h = elim (Bool-cases (is_success status)) [
        | inl good ↦ rw good (deliver-Balanced status response good w h)
        | inr bad ↦ rw bad (give_up-Balanced status response bad w h)
      ]

    module _ (req : Request) (st : State) (rag_body : Fields) where
      run_call-Balanced :
          ctx.test_mode ≡ false
          → (w : World S) → At q a b w
          → Balanced q a b (run_call o ep req st ctx rag_body w)
      unfolding run_call when_reserved forward_to call_service
      run_call-Balanced real w h =
          let (answered, after) =
            reserve_quota-Standing o store ctx.caller ep.resource q a b w.store h in
          elim (Bool-cases (can_take q)) [
            | inl left ↦ rw (answered, left) (conclude-Balanced real left _ _ (rw left at after))
            | inr spent ↦ rw (answered, spent) (fail-Balanced 402 null _ refl _ (rw spent at after))
          ]

      run_test-Balanced :
          ctx.test_mode ≡ true → (w : World S) → At q a b w → Balanced q a b (run_test o ep ctx w)
      unfolding run_test
      run_test-Balanced test w h =
          let response = obj (ep.build_test_response ctx.domain ctx.request_id 0) in
          then-Balanced (settle o ctx 200 response)
            (λ _. pure (success_answer 200 response ctx.request_id ctx.limits)) w h
            (settle-At q a b 200 response) (λ done t same. unpaid (inl test) same)

      pub run_either-Balanced :
          (w : World S) → At q a b w → Balanced q a b (run_either o ep req st ctx rag_body w)
      unfolding run_either
      run_either-Balanced w h = elim (Bool-cases ctx.test_mode) [
        | inl test ↦ rw test (rw test at (run_test-Balanced test w h))
        | inr real ↦ rw real (rw real at (run_call-Balanced real w h))
      ]
