-- ===== src/MemoryStore/Commands.antt =====
-- `MemoryStore` fills the interface that V1Store uses, and keeps its laws while it has room.
use omnibioai_api_gateway.Prelude.{
  ℕ, suc, String, ◌≡◌, refl, ap, ◌∙◌, true, false, Option, none, some, arith, Option-cases, inl,
  inr, is_some, eq_iff,
}
use omnibioai_api_gateway.Prelude.Int.{ℤ, pos, ◌+ℤ◌, ◌-ℤ◌}
use omnibioai_api_gateway.Dict.{lookup-erase, length-erase-le}
use omnibioai_api_gateway.Redis.{Stored, int_text, parse_int_or_zero, Commands}
use omnibioai_api_gateway.Redis.Laws.{Obeys, View, update, Runs, CommandLaws}
use omnibioai_api_gateway.MemoryStore.{
  MemoryStore, live, put, put_keep, incr, decr, expire, get, set, delete, add_to,
}
use omnibioai_api_gateway.MemoryStore.View.{
  view, HasRoom, live-view, view-live, view-put_until, length-put_until, deadline-IsAhead,
  kept-IsAhead, HasRoom-live, lookup-live-some, view-extended, length-extended,
}

abbrev pub memory_commands : Commands MemoryStore
memory_commands = record {
  get = get;
  set = set;
  incr = incr;
  decr = decr;
  expire = expire;
  delete = delete;
}

abbrev pub Ran : {A : Type 0} → Option A × MemoryStore → A → View → ℕ → Type 0
Ran = Runs view HasRoom

pub get-Runs :
    (k : String) (n : ℕ) (m : MemoryStore) → HasRoom (suc n) m → Ran (get k m) (view m k) (view m) n
unfolding get
get-Runs k n m room = record {
  returned = ap some (live-view k m);
  values = λ j. view-live k j m;
  room = HasRoom-live k n m (omega arith);
}

update-live :
    (k j : String) (v : Stored) (m : MemoryStore)
    → update (view (live k m).1) k (some v) j ≡ update (view m) k (some v) j
update-live k j v m = rw view-live

put-Runs :
    (k : String) (v : Stored) (ttl n : ℕ) (m : MemoryStore)
    → HasRoom (suc n) m
    → Ran (some true, put k v (some (suc ttl)) m) true (update (view m) k (some v)) n
unfolding put
put-Runs k v ttl n m room = record {
  returned = refl;
  values = λ j. view-put_until k j v _ m (omega arith) (deadline-IsAhead m.now ttl);
  room = length-put_until k v _ n m room;
}

pub set_nx_absent-Runs :
    (k : String) (v : Stored) (ttl n : ℕ) (m : MemoryStore)
    → HasRoom (suc n) m
    → view m k ≡ none
    → Ran (set k v true (some (suc ttl)) m) true (update (view m) k (some v)) n
unfolding set
set_nx_absent-Runs k v ttl n m room absent =
    let ran = put-Runs k v ttl n (live k m).1 (HasRoom-live k (suc n) m room) in
    rw (live-view, absent)
      (record {
        returned = refl;
        values = λ j. ran.values j ∙ update-live k j v m;
        room = ran.room;
      })

pub set_nx_present-Runs :
    (k : String) (v w : Stored) (ttl n : ℕ) (m : MemoryStore)
    → HasRoom (suc n) m
    → view m k ≡ some w
    → Ran (set k v true (some (suc ttl)) m) false (view m) n
unfolding set
set_nx_present-Runs k v w ttl n m room there =
    rw (live-view, there)
      (record {
        returned = refl;
        values = λ j. view-live k j m;
        room = HasRoom-live k n m (omega arith);
      })

add_to-Runs :
    (k : String) (f : ℤ → ℤ) (z : ℤ) (n : ℕ) (m : MemoryStore)
    → HasRoom (suc n) m
    → parse_int_or_zero (view m k) ≡ some z
    → Ran
        (add_to (parse_int_or_zero (live k m).0) k f (live k m).1)
        (f z)
        (update (view m) k (some (int_text (f z))))
        n
unfolding put_keep
add_to-Runs k f z n m room parsed =
    rw (live-view, parsed)
      (record {
        returned = refl;
        values = λ j.
            view-put_until k j (int_text (f z)) _ (live k m).1 (HasRoom-live k 1 m (omega arith))
              (kept-IsAhead k m)
            ∙ update-live k j (int_text (f z)) m;
        room = length-put_until k _ _ n (live k m).1 (HasRoom-live k (suc n) m room);
      })

pub expire-Runs :
    (k : String) (ttl n : ℕ) (m : MemoryStore)
    → HasRoom (suc n) m
    → Ran (expire k (suc ttl) m) (is_some (view m k)) (view m) n
unfolding expire
expire-Runs k ttl n m room = elim (Option-cases (view m k)) [
  | inl absent ↦
      rw (live-view, absent)
        (record {
          returned = refl;
          values = λ j. view-live k j m;
          room = HasRoom-live k n m (omega arith);
        })
  | inr (v, there) ↦
      let (e, found, _, ahead) = lookup-live-some k v m there in
      rw (live-view, there, found)
        (record {
          returned = refl;
          values = λ j. view-extended k j ttl e (live k m).1 found ahead ∙ view-live k j m;
          room = length-extended k ttl n e (live k m).1 found (HasRoom-live k n m (omega arith));
        })
]

pub delete-Runs :
    (k : String) (n : ℕ) (m : MemoryStore)
    → HasRoom (suc n) m
    → Ran (delete k m) tt (update (view m) k none) n
unfolding delete view
delete-Runs k n m room = record {
  returned = refl;
  values = λ j. ground (arith, lookup-erase k j m.items, eq_iff k j);
  room = omega (arith, length-erase-le k m.items);
}

pub incr-Runs :
    (k : String) (z : ℤ) (n : ℕ) (m : MemoryStore)
    → HasRoom (suc n) m
    → parse_int_or_zero (view m k) ≡ some z
    → Ran (incr k m) (z +ℤ pos 1) (update (view m) k (some (int_text (z +ℤ pos 1)))) n
unfolding incr
incr-Runs k z n m room parsed = add_to-Runs k (λ x. x +ℤ pos 1) z n m room parsed

pub decr-Runs :
    (k : String) (z : ℤ) (n : ℕ) (m : MemoryStore)
    → HasRoom (suc n) m
    → parse_int_or_zero (view m k) ≡ some z
    → Ran (decr k m) (z -ℤ pos 1) (update (view m) k (some (int_text (z -ℤ pos 1)))) n
unfolding decr
decr-Runs k z n m room parsed = add_to-Runs k (λ x. x -ℤ pos 1) z n m room parsed

pub set-Runs :
    (k : String) (v : Stored) (ttl n : ℕ) (m : MemoryStore)
    → HasRoom (suc n) m
    → Ran (set k v false (some (suc ttl)) m) true (update (view m) k (some v)) n
unfolding set
set-Runs k v ttl n m room = put-Runs k v ttl n m room

-- `MemoryStore` implements the Redis commands as their clients rely on them: while there is room, each command
-- returns what Redis documents, changes the value of its own key as documented, and no other key.
pub memory_commands-Obeys : Obeys memory_commands view HasRoom
memory_commands-Obeys = record {
  room_left = λ n m h. omega arith;
  get_lem = get-Runs;
  set_lem = set-Runs;
  set_nx_absent = set_nx_absent-Runs;
  set_nx_present = set_nx_present-Runs;
  incr_lem = incr-Runs;
  decr_lem = decr-Runs;
  expire_lem = expire-Runs;
  delete_lem = delete-Runs;
}

unfoldable pub memory_laws : CommandLaws memory_commands
memory_laws = record { view = view; HasRoom = HasRoom; obeys = memory_commands-Obeys }
