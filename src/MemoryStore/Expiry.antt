-- ===== src/MemoryStore/Expiry.antt =====
-- How long a value that was written stays readable.
use omnibioai_api_gateway.Prelude.{
  ℕ, zero, suc, ◌+◌, ◌*◌, String, Bool, true, false, ◌≡◌, refl, none, some, arith, eq_refl,
  if◌then◌else◌, ltb,
}
use omnibioai_api_gateway.Dict.{lookup-insert}
use omnibioai_api_gateway.Redis.{Stored}
use omnibioai_api_gateway.MemoryStore.{MemoryStore, second, put, put_until, set, deadline}
use omnibioai_api_gateway.MemoryStore.View.{view, HasRoom, prune_of_room, length-put_until}

-- Time passes, and no command runs.
abbrev pub wait : ℕ → MemoryStore → MemoryStore
wait t m = record m { now = m.now + t }

-- Whether what was written with a time to live of `ttl` seconds is there `t` microseconds later: a
-- ttl of zero sets no deadline.
abbrev pub is_kept : ℕ → ℕ → Bool
is_kept zero t = true
is_kept (suc ttl) t = ltb t (suc ttl * second)

pub view-wait-set :
    (k : String) (v : Stored) (ttl t : ℕ) (m : MemoryStore)
    → HasRoom 1 m
    → view (wait t (set k v false (some ttl) m).1) k ≡ (if is_kept ttl t then some v else none)
unfolding set view put put_until
view-wait-set k v zero t m room =
    rw (prune_of_room m room)
      (ground (arith, lookup-insert k k (record { value = v; expires = none }) m.items, eq_refl k))
view-wait-set k v (suc ttl) t m room = rw (prune_of_room m room) (
    ground (
      arith,
      lookup-insert k k (record { value = v; expires = deadline m.now (some (suc ttl)) }) m.items,
      eq_refl k,
    ))

pub HasRoom-wait-set :
    (k : String) (v : Stored) (ttl t n : ℕ) (m : MemoryStore)
    → HasRoom (suc n) m
    → HasRoom n (wait t (set k v false (some ttl) m).1)
unfolding set put
HasRoom-wait-set k v ttl t n m room = length-put_until k v (deadline m.now (some ttl)) n m room

pub set-returned :
    (k : String) (v : Stored) (ttl : ℕ) (m : MemoryStore)
    → (set k v false (some ttl) m).0 ≡ some true
unfolding set
set-returned k v ttl m = refl
