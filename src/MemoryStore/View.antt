-- ===== src/MemoryStore/View.antt =====
-- The values that a client can read, and what each command does to them.
use omnibioai_api_gateway.Prelude.{
  ℕ, suc, ◌+◌, ◌*◌, ◌≤◌, String, ◌≡◌, refl, false, Option, none, some, arith, Option-cases, inl,
  inr, length, eq_iff, if◌then◌else◌,
}
use omnibioai_api_gateway.Dict.{
  lookup, lookup-insert, lookup-erase, length-insert-le, length-erase-le, length-insert_present,
}
use omnibioai_api_gateway.Redis.{Stored}
use omnibioai_api_gateway.Redis.Laws.{View, update}
use omnibioai_api_gateway.MemoryStore.{
  MemoryStore, Entry, max_keys, second, live, live_entry, prune, put_until, kept_deadline,
  is_expired, insert_some, with_deadline, deadline,
}

abbrev pub live_value : Option Entry → ℕ → Option Stored
live_value none now = none
live_value (some e) now = if is_expired e.expires now then none else some e.value

unfoldable pub view : MemoryStore → View
view m k = live_value (lookup k m.items) m.now

-- Room for `n` more keys, so that no write evicts.
abbrev pub HasRoom : ℕ → MemoryStore → Type 0
HasRoom n m = length m.items + n ≤ max_keys

live_entry-view :
    (o : Option Entry) (k : String) (m : MemoryStore) → (live_entry o k m).0 ≡ live_value o m.now
unfolding live_entry
live_entry-view none k m = refl
live_entry-view (some e) k m = ground arith

pub live-view : (k : String) (m : MemoryStore) → (live k m).0 ≡ view m k
unfolding live view
live-view k m = live_entry-view (lookup k m.items) k m

pub view-live : (k j : String) (m : MemoryStore) → view (live k m).1 j ≡ view m j
unfolding live live_entry view
view-live k j m = ground (arith, lookup-erase k j m.items, eq_iff k j)

length-live-le : (k : String) (m : MemoryStore) → length (live k m).1.items ≤ length m.items
unfolding live live_entry
length-live-le k m = ground (arith, length-erase-le k m.items)

now-live : (k : String) (m : MemoryStore) → (live k m).1.now ≡ m.now
unfolding live live_entry
now-live k m = ground arith

pub prune_of_room : (m : MemoryStore) → HasRoom 1 m → prune m ≡ m
unfolding prune
prune_of_room m h = ground arith

-- A deadline that has not passed.
abbrev pub IsAhead : Option ℕ → ℕ → Type 0
IsAhead t now = is_expired t now ≡ false

pub view-put_until :
    (k j : String) (v : Stored) (t : Option ℕ) (m : MemoryStore)
    → HasRoom 1 m
    → IsAhead t m.now
    → view (put_until k v t m) j ≡ update (view m) k (some v) j
unfolding put_until view
view-put_until k j v t m room ahead =
    rw (prune_of_room m room)
      (ground (arith, lookup-insert k j (record { value = v; expires = t }) m.items, eq_iff k j))

pub length-put_until :
    (k : String) (v : Stored) (t : Option ℕ) (n : ℕ) (m : MemoryStore)
    → HasRoom (suc n) m
    → HasRoom n (put_until k v t m)
unfolding put_until
length-put_until k v t n m room =
    rw (prune_of_room m (omega arith))
      (omega (arith, length-insert-le k (record { value = v; expires = t }) m.items))

pub deadline-IsAhead : (now ttl : ℕ) → IsAhead (deadline now (some (suc ttl))) now
deadline-IsAhead now ttl = ground arith

-- The deadline that `incr` and `decr` keep has not passed.
pub kept-IsAhead :
    (k : String) (m : MemoryStore)
    → IsAhead (kept_deadline (lookup k (live k m).1.items) none) (live k m).1.now
unfolding live live_entry
kept-IsAhead k m = ground (arith, lookup-erase k k m.items, eq_iff k k)

pub HasRoom-live : (k : String) (n : ℕ) (m : MemoryStore) → HasRoom n m → HasRoom n (live k m).1
HasRoom-live k n m h = omega (arith, length-live-le k m)

-- `expire` finds the entry that `_live` found.
pub lookup-live-some :
    (k : String) (v : Stored) (m : MemoryStore)
    → view m k ≡ some v
    → (e : Entry) × (lookup k (live k m).1.items ≡ some e)
      × (e.value ≡ v)
      × IsAhead e.expires (live k m).1.now
unfolding live live_entry view
lookup-live-some k v m h = elim (Option-cases (lookup k m.items)) [
  | inl missing ↦ cc
  | inr (e, found) ↦ (e, ground arith, ground arith, ground arith)
]

pub view-extended :
    (k j : String) (ttl : ℕ) (e : Entry) (m : MemoryStore)
    → lookup k m.items ≡ some e
    → IsAhead e.expires m.now
    → view (record m { items = insert_some k (with_deadline (some e) m.now (suc ttl)) m.items }) j
      ≡ view m j
unfolding view
view-extended k j ttl e m found ahead = ground (
  arith,
  lookup-insert k j (record e { expires = some (m.now + suc ttl * second) }) m.items,
  eq_iff k j,
)

pub length-extended :
    (k : String) (ttl n : ℕ) (e : Entry) (m : MemoryStore)
    → lookup k m.items ≡ some e
    → HasRoom n m
    → HasRoom n
        (record m { items = insert_some k (with_deadline (some e) m.now (suc ttl)) m.items })
length-extended k ttl n e m found room = rw (length-insert_present k _ e m.items found) room
