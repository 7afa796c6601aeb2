-- ===== src/V1Store/Idempotency.antt =====
-- `idempotency_begin` and `idempotency_finish` on a working store.
pub mod Concurrent
mod Examples
use omnibioai_api_gateway.Prelude.{
  ℕ, suc, String, ◌≡◌, refl, ◌∙◌, true, false, Option, none, some, ◌==◌, eq_refl, arith,
  if◌then◌else◌,
}
use omnibioai_api_gateway.Json.{Json}
use omnibioai_api_gateway.Redis.{Stored, claim_text, Commands}
use omnibioai_api_gateway.Redis.Laws.{update, Runs, CommandLaws, Runs-view}
use omnibioai_api_gateway.V1Store.{
  Begun, new, in_progress, mismatch, replay, compare_claim, is_success, idem_key, idempotency_begin,
  idempotency_finish,
}

abbrev pub claimed : String → Stored
claimed fingerprint = claim_text (record { fingerprint = fingerprint; result = none })

abbrev pub done : String → ℕ → Json → Stored
done fingerprint status body =
    claim_text (record { fingerprint = fingerprint; result = some (status, body) })

module _ {S : Type 0} (c : Commands S) (laws : CommandLaws c) (sha : String → String) (ttl : ℕ)
    (subject key : String) where
  open laws use {view, HasRoom}

  abbrev pub at_key : String
  at_key = idem_key c sha (suc ttl) subject key

  abbrev pub begin : String → S → Option Begun × S
  begin fingerprint = idempotency_begin c sha (suc ttl) subject key fingerprint

  abbrev pub finish : String → ℕ → Json → S → Option (Unit {0}) × S
  finish fingerprint status body =
      idempotency_finish c sha (suc ttl) subject key fingerprint status body

  -- A key that is not claimed is claimed, and nothing else changes.
  pub begin_absent :
      (fingerprint : String) (n : ℕ) (s : S)
      → HasRoom (suc n) s
      → view s at_key ≡ none
      → Runs view HasRoom
          (begin fingerprint s)
          new
          (update (view s) at_key (some (claimed fingerprint)))
          n
  unfolding idempotency_begin
  begin_absent fingerprint n s room absent =
      let claim = laws.obeys.set_nx_absent at_key (claimed fingerprint) 119 n s room absent in
      rw claim.returned (record { returned = refl; values = claim.values; room = claim.room })

  -- A key with a record answers by that record, which stays.
  pub begin_present :
      (fingerprint : String) (w : Stored) (b : Begun) (n : ℕ) (s : S)
      → HasRoom (suc (suc n)) s
      → view s at_key ≡ some w
      → compare_claim fingerprint (some w) ≡ some b
      → Runs view HasRoom (begin fingerprint s) b (view s) n
  unfolding idempotency_begin
  begin_present fingerprint w b n s room there compared =
      let claim =
        laws.obeys.set_nx_present at_key (claimed fingerprint) w 119 (suc n) s room there in
      let s1 = (c.set at_key (claimed fingerprint) true (some 120) s).1 in
      let got = laws.obeys.get_lem at_key n s1 claim.room in
      rw (claim.returned, got.returned, Runs-view claim, there, compared)
        (record { returned = refl; values = λ j. got.values j ∙ claim.values j; room = got.room })

  pub finish_success :
      (fingerprint : String) (status : ℕ) (body : Json) (n : ℕ) (s : S)
      → HasRoom (suc n) s
      → is_success status ≡ true
      → Runs view HasRoom
          (finish fingerprint status body s)
          tt
          (update (view s) at_key (some (done fingerprint status body)))
          n
  unfolding idempotency_finish
  finish_success fingerprint status body n s room good =
      let wrote = laws.obeys.set_lem at_key (done fingerprint status body) ttl n s room in
      rw (good, wrote.returned)
        (record { returned = refl; values = wrote.values; room = wrote.room })

  finish_failure :
      (fingerprint : String) (status : ℕ) (body : Json) (n : ℕ) (s : S)
      → HasRoom (suc n) s
      → is_success status ≡ false
      → Runs view HasRoom (finish fingerprint status body s) tt (update (view s) at_key none) n
  unfolding idempotency_finish
  finish_failure fingerprint status body n s room bad =
      let gone = laws.obeys.delete_lem at_key n s room in
      rw (bad, gone.returned) (record { returned = refl; values = gone.values; room = gone.room })

  -- After a first call has claimed the key, a second one is told that the first is in progress,
  -- or, with another request, that the key does not match it: it is never told to run.
  pub begin-begin :
      (first second : String) (n : ℕ) (s : S)
      → HasRoom (suc (suc (suc n))) s
      → view s at_key ≡ none
      → (begin second (begin first s).1).0
        ≡ some (if first == second then in_progress else mismatch)
  begin-begin first second n s room absent =
      let claim = begin_absent first (suc (suc n)) s room absent in
      (begin_present second (claimed first) (if first == second then in_progress else mismatch) n
        (begin first s).1 claim.room (rw (Runs-view claim, eq_refl at_key)) (ground arith)).returned

  -- A successful result that was stored is replayed, status and body, to the same request; another request
  -- with the key is refused.
  pub begin-finish_success :
      (first second : String) (status : ℕ) (body : Json) (n : ℕ) (s : S)
      → HasRoom (suc (suc (suc n))) s
      → is_success status ≡ true
      → (begin second (finish first status body s).1).0
        ≡ some (if first == second then replay status body else mismatch)
  begin-finish_success first second status body n s room good =
      let wrote = finish_success first status body (suc (suc n)) s room good in
      (begin_present second (done first status body)
        (if first == second then replay status body else mismatch) n (finish first status body s).1
        wrote.room (rw (Runs-view wrote, eq_refl at_key)) (ground arith)).returned

  -- A failed result releases the key: the next call, with whatever request, runs.
  pub begin-finish_failure :
      (first second : String) (status : ℕ) (body : Json) (n : ℕ) (s : S)
      → HasRoom (suc (suc n)) s
      → is_success status ≡ false
      → (begin second (finish first status body s).1).0 ≡ some new
  begin-finish_failure first second status body n s room bad =
      let gone = finish_failure first status body (suc n) s room bad in
      (begin_absent second n (finish first status body s).1 gone.room
        (rw (Runs-view gone, eq_refl at_key))).returned
