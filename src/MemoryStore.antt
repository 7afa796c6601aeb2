-- ===== src/MemoryStore.antt =====
-- `MemoryStore` of app/services/v1_store.py: the in-process stand-in for Redis.
-- Time is counted in microseconds; a command reads the clock at one instant, `now`.
pub mod Bounds
pub mod View
pub mod Commands
pub mod Expiry
mod Examples
use omnibioai_api_gateway.Prelude.{
  ℕ, zero, suc, ◌+◌, ◌*◌, ◌/◌, String, Bool, true, false, ◌&&◌, Option, none, some, List, [], ◌∷◌,
  if◌then◌else◌, ltb, leb, length, take, is_some,
}
use omnibioai_api_gateway.Prelude.Int.{ℤ, pos, ◌+ℤ◌, ◌-ℤ◌}
use omnibioai_api_gateway.Dict.{Dict, keys, lookup, insert, erase, erase_all}
use omnibioai_api_gateway.Exec.{Exec}
use omnibioai_api_gateway.Redis.{Stored, int_text, parse_int_or_zero}

abbrev pub max_keys : ℕ
max_keys = 100_000

abbrev pub second : ℕ
second = 1_000_000

pub record Entry : Type 0 where
  pub value : Stored
  pub expires : Option ℕ

pub record MemoryStore : Type 0 where
  pub items : Dict Entry
  pub now : ℕ

-- expires is not None and expires <= now
abbrev pub is_expired : Option ℕ → ℕ → Bool
is_expired none now = false
is_expired (some t) now = leb t now

live_entry : Option Entry → String → MemoryStore → Option Stored × MemoryStore
live_entry none key m = (none, m)
live_entry (some e) key m =
    if is_expired e.expires m.now
    then (none, record m { items = erase key m.items })
    else (some e.value, m)

pub live : String → MemoryStore → Option Stored × MemoryStore
unfolding live_entry
live key m = live_entry (lookup key m.items) key m

expired_keys : ℕ → Dict Entry → List String
expired_keys now [] = []
expired_keys now ((k, e) ∷ d) =
    let rest = expired_keys now d in if is_expired e.expires now then k ∷ rest else rest

-- Still full of live keys: drop the oldest-inserted tenth.
drop_oldest : Dict Entry → Dict Entry
drop_oldest d = if leb max_keys (length d) then erase_all (take (max_keys / 10) (keys d)) d else d

pub prune : MemoryStore → MemoryStore
unfolding expired_keys drop_oldest
prune m =
    if ltb (length m.items) max_keys
    then m
    else record m { items = drop_oldest (erase_all (expired_keys m.now m.items) m.items) }

-- now + ttl if ttl else None
abbrev pub deadline : ℕ → Option ℕ → Option ℕ
deadline now none = none
deadline now (some zero) = none
deadline now (some (suc ttl)) = some (now + suc ttl * second)

abbrev pub kept_deadline : Option Entry → Option ℕ → Option ℕ
kept_deadline none t = t
kept_deadline (some e) t = e.expires

pub put_until : String → Stored → Option ℕ → MemoryStore → MemoryStore
put_until key value expires m =
    let m' = prune m in
    record m' { items = insert key (record { value = value; expires = expires }) m'.items }

-- `_put`: `put_keep` is the call with keep_ttl=True, which gives no ttl
pub put : String → Stored → Option ℕ → MemoryStore → MemoryStore
unfolding put_until
put key value ttl m = put_until key value (deadline m.now ttl) m

pub put_keep : String → Stored → MemoryStore → MemoryStore
unfolding put_until
put_keep key value m = put_until key value (kept_deadline (lookup key m.items) none) m

abbrev add_to : Option ℤ → String → (ℤ → ℤ) → Exec MemoryStore ℤ
add_to none key f m = (none, m)
add_to (some z) key f m = (some (f z), put_keep key (int_text (f z)) m)

pub incr : String → Exec MemoryStore ℤ
unfolding live put_keep
incr key m = let (v, m') = live key m in add_to (parse_int_or_zero v) key (λ z. z +ℤ pos 1) m'

pub decr : String → Exec MemoryStore ℤ
unfolding live put_keep
decr key m = let (v, m') = live key m in add_to (parse_int_or_zero v) key (λ z. z -ℤ pos 1) m'

abbrev pub with_deadline : Option Entry → ℕ → ℕ → Option Entry
with_deadline none now ttl = none
with_deadline (some e) now ttl = some (record e { expires = some (now + ttl * second) })

abbrev pub insert_some : String → Option Entry → Dict Entry → Dict Entry
insert_some k none d = d
insert_some k (some e) d = insert k e d

pub expire : String → ℕ → Exec MemoryStore Bool
unfolding live
expire key ttl m =
    let (v, m') = live key m in
    if is_some v
    then (
      some true,
      record m' {
        items = insert_some key (with_deadline (lookup key m'.items) m'.now ttl) m'.items;
      },
    )
    else (some false, m')

pub get : String → Exec MemoryStore (Option Stored)
unfolding live
get key m = let (v, m') = live key m in (some v, m')

-- The result None of a refused `nx` is `false`. Without `nx` the key is not looked up.
pub set : String → Stored → Bool → Option ℕ → Exec MemoryStore Bool
unfolding live put
set key value true ex m =
    let (v, m') = live key m in
    if is_some v then (some false, m') else (some true, put key value ex m')
set key value false ex m = (some true, put key value ex m)

pub delete : String → Exec MemoryStore (Unit {0})
delete key m = (some tt, record m { items = erase key m.items })
