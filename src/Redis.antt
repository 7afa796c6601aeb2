-- ===== src/Redis.antt =====
-- The Redis commands that V1Store uses, as an interface: app/services/v1_store.py runs on
-- redis.asyncio or on its own MemoryStore. A command may raise.
pub mod Laws
pub mod Steady
use omnibioai_api_gateway.Prelude.{ℕ, String, Bool, Option, none, some, ◌==◌, if◌then◌else◌}
use omnibioai_api_gateway.Prelude.Int.{ℤ, pos}
use omnibioai_api_gateway.Json.{Json}
use omnibioai_api_gateway.Exec.{Exec}

-- The record of `idempotency_begin` and `idempotency_finish`; `result` is `none` while the state
-- is "in_progress", and the status and body of a "done" one.
pub record Claim : Type 0 where
  pub fingerprint : String
  pub result : Option (ℕ × Json)

-- A stored text, by what it was printed from: `str(n)`, `json.dumps([tokens, now])`,
-- `json.dumps(record)`, or a text that is none of these.
pub data Stored : Type 0 where
  int_text : ℤ → Stored
  bucket_text : ℕ → ℕ → Stored
  claim_text : Claim → Stored
  other_text : String → Stored

-- int(raw), `none` for a ValueError
abbrev pub parse_int : Stored → Option ℤ
parse_int (int_text n) = some n
parse_int _ = none

-- int(raw or 0)
abbrev pub parse_int_or_zero : Option Stored → Option ℤ
parse_int_or_zero none = some (pos 0)
parse_int_or_zero (some (int_text n)) = some n
parse_int_or_zero (some (other_text s)) = if s == "" then some (pos 0) else none
parse_int_or_zero (some _) = none

pub record Commands (S : Type 0) : Type 0 where
  pub get : String → Exec S (Option Stored)
  -- set(key, value, nx, ex): whether the value was written
  pub set : String → Stored → Bool → Option ℕ → Exec S Bool
  pub incr : String → Exec S ℤ
  pub decr : String → Exec S ℤ
  pub expire : String → ℕ → Exec S Bool
  pub delete : String → Exec S (Unit {0})
