-- ===== src/Config/Retention.antt =====
-- How long the in-process store keeps an answer for replay, under the configured V1_IDEMPOTENCY_TTL.
use omnibioai_api_gateway.Prelude.{
  ℕ, ◌≤◌, String, true, false, ◌≡◌, refl, Option, none, some, ◌==◌, arith, if◌then◌else◌,
  Bool-cases, inl, inr,
}
use omnibioai_api_gateway.Prelude.Int.{ℤ, pos}
use omnibioai_api_gateway.Json.{Json}
use omnibioai_api_gateway.MemoryStore.{MemoryStore}
use omnibioai_api_gateway.MemoryStore.View.{view, HasRoom}
use omnibioai_api_gateway.MemoryStore.Commands.{memory_commands, memory_laws}
use omnibioai_api_gateway.MemoryStore.Expiry.{
  wait, is_kept, view-wait-set, HasRoom-wait-set, set-returned,
}
use omnibioai_api_gateway.V1Store.{
  Begun, new, mismatch, replay, is_success, idem_key, idempotency_begin, idempotency_finish,
}
use omnibioai_api_gateway.V1Store.Idempotency.{done, begin_absent, begin_present}
use omnibioai_api_gateway.Config.{thirty_days, idempotency_ttl}

idempotency_ttl-le : (raw : Option ℤ) (n : ℕ) → idempotency_ttl raw ≡ pos n → n ≤ thirty_days
unfolding idempotency_ttl
idempotency_ttl-le raw n h = ground arith

module _ (sha : String → String) (ttl : ℕ) (subject key : String) where
  abbrev pub begin : String → MemoryStore → Option Begun × MemoryStore
  begin fingerprint = idempotency_begin memory_commands sha ttl subject key fingerprint

  abbrev pub finish : String → ℕ → Json → MemoryStore → Option (Unit {0}) × MemoryStore
  finish fingerprint status body =
      idempotency_finish memory_commands sha ttl subject key fingerprint status body

  abbrev at_key : String
  at_key = idem_key memory_commands sha ttl subject key

  finish_sets :
      (fingerprint : String) (status : ℕ) (body : Json) (m : MemoryStore)
      → is_success status ≡ true
      → (finish fingerprint status body m).1
        ≡ (memory_commands.set at_key (done fingerprint status body) false (some ttl) m).1
  unfolding idempotency_finish
  finish_sets fingerprint status body m good =
      rw (good, set-returned at_key (done fingerprint status body) ttl m) refl

-- What a call that repeats the key is told, `t` microseconds after the result was stored with the
-- time to live `ttl`.
abbrev told_after : ℕ → ℕ → String → String → ℕ → Json → Begun
told_after ttl t first second status body =
    if is_kept ttl t then (if first == second then replay status body else mismatch) else new

-- `begin` is the same with every time to live.
begin_any :
    (sha : String → String) (a b : ℕ) (subject key fingerprint : String)
    → idempotency_begin memory_commands sha a subject key fingerprint
      ≡ idempotency_begin memory_commands sha b subject key fingerprint
unfolding idempotency_begin idem_key
begin_any sha a b subject key fingerprint = refl

idem_key_any :
    (sha : String → String) (a b : ℕ) (subject key : String)
    → idem_key memory_commands sha a subject key ≡ idem_key memory_commands sha b subject key
unfolding idem_key
idem_key_any sha a b subject key = refl

view_after :
    (sha : String → String) (ttl t : ℕ) (subject key first : String) (status : ℕ) (body : Json)
    (m : MemoryStore)
    → is_success status ≡ true
    → HasRoom 3 m
    → (view
          (wait t (finish sha ttl subject key first status body m).1)
          (idem_key memory_commands sha 1 subject key)
        ≡ (if is_kept ttl t then some (done first status body) else none))
      × HasRoom 2 (wait t (finish sha ttl subject key first status body m).1)
view_after sha ttl t subject key first status body m good room =
    let at = idem_key memory_commands sha ttl subject key in
    rw
      (finish_sets sha ttl subject key first status body m good, idem_key_any sha 1 ttl subject key)
      (
        view-wait-set at (done first status body) ttl t m (omega arith),
        HasRoom-wait-set at (done first status body) ttl t 2 m room,
      )

-- In the in-process store, with room in it, an answer stored under the configured time to live is
-- replayed to each repetition of its request, and refused to another request with its key, until
-- just that time has passed; from then on the key is free. The time is at most thirty days,
-- whatever the environment says; a time of zero sets no end.
pub finish-kept :
    (sha : String → String) (raw : Option ℤ) (ttl t : ℕ) (subject key first second : String)
    (status : ℕ) (body : Json) (m : MemoryStore)
    → idempotency_ttl raw ≡ pos ttl
    → is_success status ≡ true
    → HasRoom 3 m
    → ((begin sha ttl subject key second
          (wait t (finish sha ttl subject key first status body m).1)).0
        ≡ some (told_after ttl t first second status body))
      × (ttl ≤ thirty_days)
unfolding memory_laws
finish-kept sha raw ttl t subject key first second status body m configured good room =
    let (seen, left) = view_after sha ttl t subject key first status body m good room in
    let later = wait t (finish sha ttl subject key first status body m).1 in
    (
      rw (begin_any sha ttl 1 subject key second) (elim (Bool-cases (is_kept ttl t)) [
        | inl kept ↦
            rw kept
              (begin_present memory_commands memory_laws sha 0 subject key second
                (done first status body) (if first == second then replay status body else mismatch)
                0 later left (rw (seen, kept)) (ground arith)).returned
        | inr gone ↦
            rw gone
              (begin_absent memory_commands memory_laws sha 0 subject key second 0 later
                (omega arith) (rw (seen, gone))).returned
      ]),
      idempotency_ttl-le raw ttl configured,
    )
