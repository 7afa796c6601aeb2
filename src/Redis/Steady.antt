-- ===== src/Redis/Steady.antt =====
-- A store that stays reachable and evicts nothing: what a command on one key does to the others.
pub mod Table
use omnibioai_api_gateway.Prelude.{
  ℕ, ◌≡◌, ◌∙◌, String, Bool, true, false, Option, none, some, refl, ◌==◌, if◌then◌else◌, is_some,
}
use omnibioai_api_gateway.Prelude.Int.{ℤ, pos, ◌+ℤ◌, ◌-ℤ◌}
use omnibioai_api_gateway.Exec.{Exec}
use omnibioai_api_gateway.Exec.Keeps.{Keeps}
use omnibioai_api_gateway.Redis.{Stored, int_text, Commands, parse_int_or_zero}
use omnibioai_api_gateway.Redis.Laws.{View, update, Obeys, CommandLaws}

-- From a state that is up `m` ends in one, and the value of every key but `k` stays.
pub record Only {S A : Type 0} (view : S → View) (IsUp : S → Type 0) (k : String) (m : Exec S A)
    : Type 0 where
  pub up : (s : S) → IsUp s → IsUp (m s).1
  pub others : (s : S) (j : String) → IsUp s → (k == j) ≡ false → view (m s).1 j ≡ view s j

-- The commands as Redis documents them, while it is up: each changes at most its own key,
-- also where it raises.
pub record Steady {S : Type 0} (c : Commands S) : Type 1 where
  pub view : S → View
  pub IsUp : S → Type 0
  pub obeys : Obeys c view (λ n. IsUp)
  pub set_only :
      (k : String) (v : Stored) (nx : Bool) (ex : Option ℕ) → Only view IsUp k (c.set k v nx ex)
  pub incr_only : (k : String) → Only view IsUp k (c.incr k)
  pub decr_only : (k : String) → Only view IsUp k (c.decr k)
  pub expire_only : (k : String) (ttl : ℕ) → Only view IsUp k (c.expire k ttl)
  pub delete_only : (k : String) → Only view IsUp k (c.delete k)

abbrev pub steady_laws : {S : Type 0} {c : Commands S} → Steady c → CommandLaws c
steady_laws store = record { view = store.view; HasRoom = λ n. store.IsUp; obeys = store.obeys }

-- A property of the store that the commands on the key `k`, and all reads, keep.
pub record Leaves {S : Type 0} (c : Commands S) (P : S → Type 0) (k : String) : Type 0 where
  pub get_kept : (j : String) → Keeps P (c.get j)
  pub set_kept : (v : Stored) (nx : Bool) (ex : Option ℕ) → Keeps P (c.set k v nx ex)
  pub incr_kept : Keeps P (c.incr k)
  pub decr_kept : Keeps P (c.decr k)
  pub expire_kept : (ttl : ℕ) → Keeps P (c.expire k ttl)
  pub delete_kept : Keeps P (c.delete k)

module _ {S : Type 0} {c : Commands S} (store : Steady c) where
  -- A property of the values alone, of which the one under `k` does not count.
  abbrev pub Ignores : (S → Type 0) → String → Type 0
  Ignores P k =
      (s t : S)
      → P s
      → store.IsUp t
      → ((j : String) → (k == j) ≡ false → store.view t j ≡ store.view s j)
      → P t

  Only-Keeps :
      {A : Type 0} {P : S → Type 0} {k : String} (m : Exec S A)
      → ((s : S) → P s → store.IsUp s)
      → Ignores P k
      → Only store.view store.IsUp k m
      → Keeps P m
  Only-Keeps m up ignores only s h =
      ignores s (m s).1 h (only.up s (up s h)) (λ j e. only.others s j (up s h) e)

  pub ignored-Leaves :
      (P : S → Type 0) (k : String) → ((s : S) → P s → store.IsUp s) → Ignores P k → Leaves c P k
  ignored-Leaves P k up ignores = record {
    get_kept = λ j s h.
        let got = store.obeys.get_lem j 0 s (up s h) in
        ignores s (c.get j s).1 h got.room (λ i e. got.values i);
    set_kept = λ v nx ex. Only-Keeps (c.set k v nx ex) up ignores (store.set_only k v nx ex);
    incr_kept = Only-Keeps (c.incr k) up ignores (store.incr_only k);
    decr_kept = Only-Keeps (c.decr k) up ignores (store.decr_only k);
    expire_kept = λ ttl. Only-Keeps (c.expire k ttl) up ignores (store.expire_only k ttl);
    delete_kept = Only-Keeps (c.delete k) up ignores (store.delete_only k);
  }

  pub IsUp-Leaves : (k : String) → Leaves c store.IsUp k
  IsUp-Leaves k = ignored-Leaves store.IsUp k (λ s h. h) (λ s t h up same. up)

  -- A value that is there.
  abbrev pub Holding : String → Stored → S → Type 0
  Holding k v s = store.IsUp s × (store.view s k ≡ some v)

  pub other-Leaves :
      (k : String) (v : Stored) (j : String) → (j == k) ≡ false → Leaves c (Holding k v) j
  other-Leaves k v j apart =
      ignored-Leaves (Holding k v) j (λ s h. h.0) (λ s t h up same. (up, same k apart ∙ h.1))
