-- ===== src/MemoryStore/Bounds.antt =====
-- How large `MemoryStore` grows: pruning makes room for every write.
use omnibioai_api_gateway.Prelude.{
  ℕ, ◌+◌, ◌≤◌, ◌<◌, String, ◌≡◌, refl, List, [], ◌∷◌, Bool, true, false, Option, none, some, arith,
  Bool-cases, inl, inr, length, take, ltb, leb, is_some,
}
use omnibioai_api_gateway.Prelude.Int.{ℤ}
use omnibioai_api_gateway.Dict.{
  Dict, keys, lookup, erase, erase_all, IsDistinct, insert-IsDistinct, erase-IsDistinct,
  erase_all-IsDistinct, length-insert-le, length-insert_present, length-erase-le,
  length-erase_all-le, length-erase_all-take,
}
use omnibioai_api_gateway.Redis.{Stored, parse_int_or_zero}
use omnibioai_api_gateway.MemoryStore.{
  MemoryStore, Entry, max_keys, expired_keys, drop_oldest, live, live_entry, prune, put_until, put,
  put_keep, add_to, incr, decr, expire, get, set, delete, is_expired, insert_some, with_deadline,
}

pub record IsValid (m : MemoryStore) : Type 0 where
  pub bounded : length m.items ≤ max_keys
  pub distinct : IsDistinct m.items

length-drop_oldest : (d : Dict Entry) → length d ≤ max_keys → length (drop_oldest d) < max_keys
unfolding drop_oldest
length-drop_oldest d h = ground (arith, length-erase_all-take 10_000 d)

length-prune : (m : MemoryStore) → length m.items ≤ max_keys → length (prune m).items < max_keys
unfolding prune
length-prune m h = ground (
  arith,
  length-erase_all-le (expired_keys m.now m.items) m.items,
  length-drop_oldest (erase_all (expired_keys m.now m.items) m.items),
)

drop_oldest-IsDistinct : (d : Dict Entry) → IsDistinct d → IsDistinct (drop_oldest d)
unfolding drop_oldest
drop_oldest-IsDistinct d h = elim (Bool-cases (leb max_keys (length d))) [
  | inl full ↦ rw full (erase_all-IsDistinct (take 10_000 (keys d)) d h)
  | inr roomy ↦ rw roomy h
]

prune-IsDistinct : (m : MemoryStore) → IsDistinct m.items → IsDistinct (prune m).items
unfolding prune
prune-IsDistinct m h = elim (Bool-cases (ltb (length m.items) max_keys)) [
  | inl roomy ↦ rw roomy h
  | inr full ↦
      rw full
        (drop_oldest-IsDistinct _ (erase_all-IsDistinct (expired_keys m.now m.items) m.items h))
]

put_until-IsValid :
    (k : String) (v : Stored) (t : Option ℕ) (m : MemoryStore)
    → IsValid m
    → IsValid (put_until k v t m)
unfolding put_until
put_until-IsValid k v t m h = record {
  bounded = omega (
    arith,
    length-prune m h.bounded,
    length-insert-le k (record { value = v; expires = t }) (prune m).items,
  );
  distinct = insert-IsDistinct k _ (prune m).items (prune-IsDistinct m h.distinct);
}

erase-IsValid :
    (k : String) (m : MemoryStore) → IsValid m → IsValid (record m { items = erase k m.items })
erase-IsValid k m h = record {
  bounded = omega (arith, length-erase-le k m.items, h.bounded);
  distinct = erase-IsDistinct k m.items h.distinct;
}

live_entry-IsValid :
    (o : Option Entry) (k : String) (m : MemoryStore) → IsValid m → IsValid (live_entry o k m).1
unfolding live_entry
live_entry-IsValid none k m h = h
live_entry-IsValid (some e) k m h = elim (Bool-cases (is_expired e.expires m.now)) [
  | inl old ↦ rw old (erase-IsValid k m h)
  | inr fresh ↦ rw fresh h
]

live-IsValid : (k : String) (m : MemoryStore) → IsValid m → IsValid (live k m).1
unfolding live
live-IsValid k m h = live_entry-IsValid (lookup k m.items) k m h

put_keep-IsValid :
    (k : String) (v : Stored) (m : MemoryStore) → IsValid m → IsValid (put_keep k v m)
unfolding put_keep
put_keep-IsValid k v m h = put_until-IsValid k v _ m h

put-IsValid :
    (k : String) (v : Stored) (ttl : Option ℕ) (m : MemoryStore)
    → IsValid m
    → IsValid (put k v ttl m)
unfolding put
put-IsValid k v ttl m h = put_until-IsValid k v _ m h

add_to-IsValid :
    (o : Option ℤ) (k : String) (f : ℤ → ℤ) (m : MemoryStore)
    → IsValid m
    → IsValid (add_to o k f m).1
add_to-IsValid none k f m h = h
add_to-IsValid (some z) k f m h = put_keep-IsValid k _ m h

incr-IsValid : (k : String) (m : MemoryStore) → IsValid m → IsValid (incr k m).1
unfolding incr
incr-IsValid k m h =
    add_to-IsValid (parse_int_or_zero (live k m).0) k _ (live k m).1 (live-IsValid k m h)

decr-IsValid : (k : String) (m : MemoryStore) → IsValid m → IsValid (decr k m).1
unfolding decr
decr-IsValid k m h =
    add_to-IsValid (parse_int_or_zero (live k m).0) k _ (live k m).1 (live-IsValid k m h)

-- `expire` writes to a key that is there, so that the store does not grow.
insert_some-IsValid :
    (k : String) (ttl : ℕ) (o : Option Entry) (m : MemoryStore)
    → lookup k m.items ≡ o
    → IsValid m
    → IsValid (record m { items = insert_some k (with_deadline o m.now ttl) m.items })
insert_some-IsValid k ttl none m e h = h
insert_some-IsValid k ttl (some x) m e h = record {
  bounded = rw (length-insert_present k _ x m.items e) h.bounded;
  distinct = insert-IsDistinct k _ m.items h.distinct;
}

expire-IsValid : (k : String) (ttl : ℕ) (m : MemoryStore) → IsValid m → IsValid (expire k ttl m).1
unfolding expire
expire-IsValid k ttl m h =
    let m' = (live k m).1 in
    elim (Bool-cases (is_some (live k m).0)) [
      | inl there ↦
          rw there (insert_some-IsValid k ttl (lookup k m'.items) m' refl (live-IsValid k m h))
      | inr missing ↦ rw missing (live-IsValid k m h)
    ]

set-IsValid :
    (k : String) (v : Stored) (nx : Bool) (ttl : Option ℕ) (m : MemoryStore)
    → IsValid m
    → IsValid (set k v nx ttl m).1
unfolding set
set-IsValid k v false ttl m h = put-IsValid k v ttl m h
set-IsValid k v true ttl m h = elim (Bool-cases (is_some (live k m).0)) [
  | inl there ↦ rw there (live-IsValid k m h)
  | inr missing ↦ rw missing (put-IsValid k v ttl (live k m).1 (live-IsValid k m h))
]

-- The commands as data, for statements about all of them.
pub data Command : Type 0 where
  get_of incr_of decr_of delete_of : String → Command
  expire_of : String → ℕ → Command
  set_of : String → Stored → Bool → Option ℕ → Command
  -- time passes between commands
  wait_for : ℕ → Command

pub run : Command → MemoryStore → MemoryStore
unfolding get delete
run (get_of k) m = (get k m).1
run (incr_of k) m = (incr k m).1
run (decr_of k) m = (decr k m).1
run (delete_of k) m = (delete k m).1
run (expire_of k ttl) m = (expire k ttl m).1
run (set_of k v nx ex) m = (set k v nx ex m).1
run (wait_for t) m = record m { now = m.now + t }

run-IsValid : (c : Command) (m : MemoryStore) → IsValid m → IsValid (run c m)
unfolding run
run-IsValid (get_of k) m h = live-IsValid k m h
run-IsValid (incr_of k) m h = incr-IsValid k m h
run-IsValid (decr_of k) m h = decr-IsValid k m h
run-IsValid (delete_of k) m h = erase-IsValid k m h
run-IsValid (expire_of k ttl) m h = expire-IsValid k ttl m h
run-IsValid (set_of k v nx ex) m h = set-IsValid k v nx ex m h
run-IsValid (wait_for t) m h = record { bounded = h.bounded; distinct = h.distinct }

pub run_all : List Command → MemoryStore → MemoryStore
run_all [] m = m
run_all (c ∷ cs) m = run_all cs (run c m)

abbrev pub init : MemoryStore
init = record { items = []; now = 0 }

-- From any store with distinct keys and at most MAX_KEYS of them, whatever commands run and
-- however time passes between them, the store keeps distinct keys and at most MAX_KEYS of them.
pub run_all-IsValid : (cs : List Command) (m : MemoryStore) → IsValid m → IsValid (run_all cs m)
unfolding run_all
run_all-IsValid [] m h = h
run_all-IsValid (c ∷ cs) m h = run_all-IsValid cs (run c m) (run-IsValid c m h)
