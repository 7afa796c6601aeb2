-- ===== src/V1/Billable/Remembered.antt =====
-- The `try` block of `_handle_billable_literature_call` for a call with an Idempotency-Key, and what it
-- leaves under that key.
use mathlib.Core.Option.{some-injective}
use omnibioai_api_gateway.Prelude.{
  ℕ, zero, suc, ◌≡◌, ◌≤◌, refl, ap, ◌∙◌, inl, inr, String, Bool, true, false, Option, none, some,
  Bool-cases, eq_refl,
}
use omnibioai_api_gateway.Json.{Json, Fields, obj, null, fields_of}
use omnibioai_api_gateway.Exec.{Exec, pure, or_raise, ◌>>=◌, ◌>>◌}
use omnibioai_api_gateway.Exec.Keeps.{Keeps, bind-Ends, after-Ends}
use omnibioai_api_gateway.Http.{Request, State}
use omnibioai_api_gateway.Redis.{Commands}
use omnibioai_api_gateway.Redis.Steady.{Steady, steady_laws, IsUp-Leaves, Holding}
use omnibioai_api_gateway.V1Store.{
  idem_key, idempotency_finish, is_success, reserve_quota, release_quota,
}
use omnibioai_api_gateway.V1Store.Idempotency.{done as stored_claim, finish_success}
use omnibioai_api_gateway.V1Store.Frame.{reserve_quota-Keeps, release_quota-Keeps}
use omnibioai_api_gateway.V1.{
  World, Outside, Answer, on_store, call_service, upstream_error, success_answer,
}
use omnibioai_api_gateway.V1.Billable.{
  Endpoint, Context, settle, emit_all, forward_to, deliver, give_up, run_call, run_test, run_either,
  conclude, when_reserved,
}
use omnibioai_api_gateway.V1.Billable.Frame.{settle-Keeps, emit_all-Keeps}
use omnibioai_api_gateway.V1.Billable.TryBlock.{upstream_error_fails}

-- A success is stored, for a time that is not zero.
finish-Holding :
    {S : Type 0} {c : Commands S} (store : Steady c) (sha : String → String) (ttl : ℕ)
    (subject key fingerprint : String) (status : ℕ) (body : Json)
    → 1 ≤ ttl
    → is_success status ≡ true
    → (s : S) → store.IsUp s
    → Holding store
        (idem_key c sha ttl subject key)
        (stored_claim fingerprint status body)
        (idempotency_finish c sha ttl subject key fingerprint status body s).1
finish-Holding store sha zero subject key fingerprint status body lasting good s up =
    elim lasting [ ]
finish-Holding {c} store sha (suc t) subject key fingerprint status body lasting good s up =
    let run =
      finish_success c (steady_laws store) sha t subject key fingerprint status body 0 s up good in
    (run.room, run.values _ ∙ rw (eq_refl (idem_key c sha (suc t) subject key)))

module _ {S : Type 0} (o : Outside S) (store : Steady o.commands) where
  abbrev pub HasClaim : String → String → String → ℕ → Json → S → Type 0
  HasClaim subject key fingerprint status body =
      Holding store (idem_key o.commands o.sha o.idempotency_ttl subject key)
        (stored_claim fingerprint status body)

  abbrev pub IsUp : World S → Type 0
  IsUp w = store.IsUp w.store

  -- A success that is no replay is stored under the key, status and body.
  abbrev pub Remembered : String → String → String → Option Answer × World S → Type 0
  Remembered subject key fingerprint x =
      (a : Answer)
      → x.0 ≡ some a
      → is_success a.status ≡ true
      → a.replayed ≡ false
      → HasClaim subject key fingerprint a.status a.body x.1.store

  pub nothing-Remembered :
      (subject key fingerprint : String) (w : World S)
      → Remembered subject key fingerprint (none, w)
  nothing-Remembered subject key fingerprint w a e good fresh = cc

  pub failure-Remembered :
      (subject key fingerprint : String) (x : Answer) (w : World S)
      → is_success x.status ≡ false
      → Remembered subject key fingerprint (some x, w)
  failure-Remembered subject key fingerprint x w bad a e good fresh = cc (some-injective _ _ e)

  module _ (lasting : 1 ≤ o.idempotency_ttl) (ctx : Context) (key : String)
      (there : ctx.idempotency_key ≡ some key) where
    abbrev pub Ends : Option Answer × World S → Type 0
    Ends = Remembered ctx.caller.subject key ctx.fingerprint

    -- What follows a step that keeps the store up, before the result is known.
    pub then-Remembered :
        {A : Type 0} (m : Exec (World S) A) (f : A → Exec (World S) Answer) (w : World S)
        → IsUp w
        → Keeps IsUp m
        → ((x : A) (t : World S) → IsUp t → Ends (f x t))
        → Ends ((m >>= f) w)
    then-Remembered m f w up kept rest =
        bind-Ends IsUp Ends m f w up kept
          (λ t up. nothing-Remembered ctx.caller.subject key ctx.fingerprint t) rest

    settle-IsUp : (status : ℕ) (body : Json) → Keeps IsUp (settle o ctx status body)
    settle-IsUp = settle-Keeps o store.IsUp ctx (λ k. IsUp-Leaves store _)

    pub fail-Remembered :
        (status : ℕ) (body : Json) (x : Answer)
        → is_success x.status ≡ false
        → (w : World S) → IsUp w
        → Ends ((settle o ctx status body >> pure x) w)
    fail-Remembered status body x bad w up =
        then-Remembered (settle o ctx status body) (λ _. pure x) w up (settle-IsUp status body)
          (λ u t up. failure-Remembered ctx.caller.subject key ctx.fingerprint x t bad)

    -- The claim is stored with a result, and with what answer it ends.
    abbrev Claimed : ℕ → Json → World S → Type 0
    Claimed status body w = HasClaim ctx.caller.subject key ctx.fingerprint status body w.store

    settle-Claimed :
        (status : ℕ) (body : Json)
        → is_success status ≡ true
        → (w : World S) → IsUp w
        → Claimed status body (settle o ctx status body w).1
    unfolding settle
    settle-Claimed status body good w up = rw there (
        finish-Holding store o.sha o.idempotency_ttl ctx.caller.subject key ctx.fingerprint status
          body lasting good w.store up)

    succeed-Remembered : (x : Answer) (w : World S) → Claimed x.status x.body w → Ends (some x, w)
    succeed-Remembered x w claimed a e good fresh =
        let same = some-injective _ _ e in
        rw⁻¹ (ap (λ (y : Answer). y.status) same, ap (λ (y : Answer). y.body) same) claimed

    deliver-Remembered :
        (ep : Endpoint) (status : ℕ) (response : Json)
        → is_success status ≡ true
        → (w : World S) → IsUp w
        → Ends (deliver o ep ctx status response w)
    unfolding deliver
    deliver-Remembered ep status response good w up =
        let nothing = nothing-Remembered ctx.caller.subject key ctx.fingerprint in
        then-Remembered (or_raise (fields_of response)) _ w up (λ t u. u)
          (λ result t u.
            then-Remembered
              (or_raise (ep.build_public_response result ctx.domain ctx.request_id o.latency_ms)) _
              t u (λ t u. u)
              (λ public t u.
                after-Ends (Claimed status (obj public)) Ends (settle o ctx status (obj public)) _ t
                  (settle-Claimed status (obj public) good t u) (λ t claimed. nothing t)
                  (λ v t claimed.
                    bind-Ends (Claimed status (obj public)) Ends (emit_all o ep ctx public) _ t
                      claimed
                      (emit_all-Keeps o
                        (HasClaim ctx.caller.subject key ctx.fingerprint status (obj public)) ctx ep
                        public)
                      (λ t claimed. nothing t)
                      (λ v t claimed.
                        succeed-Remembered
                          (success_answer status (obj public) ctx.request_id ctx.limits) t
                          claimed))))

    give_up-Remembered :
        (ep : Endpoint) (status : ℕ) (response : Json)
        → is_success status ≡ false
        → (w : World S) → IsUp w
        → Ends (give_up o ep ctx status response w)
    unfolding give_up
    give_up-Remembered ep status response bad w up =
        then-Remembered (on_store o (release_quota o.commands ctx.caller.org_id ep.resource)) _ w up
          (λ t.
            release_quota-Keeps o.commands store.IsUp ctx.caller.org_id ep.resource
              (IsUp-Leaves store _) t.store)
          (λ v.
            fail-Remembered status response
              (upstream_error status response ctx.request_id ctx.limits)
              (upstream_error_fails status response ctx.request_id ctx.limits bad))

    module _ (ep : Endpoint) (req : Request) (st : State) (rag_body : Fields) where
      conclude-Remembered :
          (answer : ℕ × Json) (w : World S) → IsUp w → Ends (conclude o ep ctx answer w)
      unfolding conclude
      conclude-Remembered (status, response) w up = elim (Bool-cases (is_success status)) [
        | inl good ↦ rw good (deliver-Remembered ep status response good w up)
        | inr bad ↦ rw bad (give_up-Remembered ep status response bad w up)
      ]

      when_reserved-Remembered :
          (reserved : Bool) (w : World S)
          → IsUp w
          → Ends (when_reserved o ep req st ctx rag_body reserved w)
      unfolding when_reserved forward_to call_service
      when_reserved-Remembered true w up = conclude-Remembered _ _ up
      when_reserved-Remembered false w up = fail-Remembered 402 null _ refl w up

      run_call-Remembered : (w : World S) → IsUp w → Ends (run_call o ep req st ctx rag_body w)
      unfolding run_call
      run_call-Remembered w up =
          then-Remembered (on_store o (reserve_quota o.commands ctx.caller.org_id ep.resource))
            (when_reserved o ep req st ctx rag_body) w up
            (λ t.
              reserve_quota-Keeps o.commands store.IsUp ctx.caller.org_id ep.resource
                (IsUp-Leaves store _) t.store)
            when_reserved-Remembered

      run_test-Remembered : (w : World S) → IsUp w → Ends (run_test o ep ctx w)
      unfolding run_test
      run_test-Remembered w up =
          let response = obj (ep.build_test_response ctx.domain ctx.request_id 0) in
          after-Ends (Claimed 200 response) Ends (settle o ctx 200 response) _ w
            (settle-Claimed 200 response refl w up)
            (λ t claimed. nothing-Remembered ctx.caller.subject key ctx.fingerprint t)
            (λ v t claimed.
              succeed-Remembered (success_answer 200 response ctx.request_id ctx.limits) t claimed)

      pub run_either-Remembered :
          (w : World S) → IsUp w → Ends (run_either o ep req st ctx rag_body w)
      unfolding run_either
      run_either-Remembered w up = elim (Bool-cases ctx.test_mode) [
        | inl test ↦ rw test (rw test at (run_test-Remembered w up))
        | inr real ↦ rw real (rw real at (run_call-Remembered w up))
      ]
