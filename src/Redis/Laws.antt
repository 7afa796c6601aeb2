-- ===== src/Redis/Laws.antt =====
-- What a client of the commands may rely on, through the values that it can read.
use mathlib.Core.Path.{fun_ext}
use omnibioai_api_gateway.Exec.{Exec, ◌>>=◌, catch}
use omnibioai_api_gateway.Prelude.{
  ℕ, suc, refl, sym, arith, eq_iff, Bool-cases, inl, inr, ◌≡◌, String, true, false, Option, none,
  some, ◌==◌, if◌then◌else◌, is_some,
}
use omnibioai_api_gateway.Prelude.Int.{ℤ, pos, ◌+ℤ◌, ◌-ℤ◌}
use omnibioai_api_gateway.Redis.{Stored, int_text, parse_int_or_zero, Commands}

abbrev pub View : Type 0
View = String → Option Stored

abbrev pub update : View → String → Option Stored → View
update w k o j = if k == j then o else w j

pub update_twice :
    (w : View) (k : String) (a b : Option Stored) (j : String)
    → update (update w k a) k b j ≡ update w k b j
update_twice w k a b j = ground (arith, eq_iff k j)

pub update_same :
    (w : View) (k : String) (a : Option Stored) (j : String) → w k ≡ a → update w k a j ≡ w j
update_same w k a j h = elim (Bool-cases (k == j)) [
  | inl same ↦ rw same (rw (← (eq_iff k j).0 same) (sym h))
  | inr other ↦ rw other
]

-- The command returned `a`, and left values `after` and room for `n` more writes.
pub record Runs {S A : Type 0} (view : S → View) (HasRoom : ℕ → S → Type 0) (x : Option A × S)
    (a : A) (after : View) (n : ℕ) : Type 0 where
  pub returned : x.0 ≡ some a
  pub values : (j : String) → view x.1 j ≡ after j
  pub room : HasRoom n x.1

-- Commands with the results and effects that Redis documents for them, in terms of the values that can be read:
-- `view s k` is the live value of `k`, and `HasRoom n s` says that in `s` the next `n` commands
-- neither fail nor evict.
pub record Obeys {S : Type 0} (c : Commands S) (view : S → View) (HasRoom : ℕ → S → Type 0)
    : Type 0 where
  pub room_left : (n : ℕ) (s : S) → HasRoom (suc n) s → HasRoom n s
  pub get_lem :
      (k : String) (n : ℕ) (s : S)
      → HasRoom (suc n) s
      → Runs view HasRoom (c.get k s) (view s k) (view s) n
  pub set_lem :
      (k : String) (v : Stored) (ttl : ℕ) (n : ℕ) (s : S)
      → HasRoom (suc n) s
      → Runs view HasRoom (c.set k v false (some (suc ttl)) s) true (update (view s) k (some v)) n
  pub set_nx_absent :
      (k : String) (v : Stored) (ttl : ℕ) (n : ℕ) (s : S)
      → HasRoom (suc n) s
      → view s k ≡ none
      → Runs view HasRoom (c.set k v true (some (suc ttl)) s) true (update (view s) k (some v)) n
  pub set_nx_present :
      (k : String) (v w : Stored) (ttl : ℕ) (n : ℕ) (s : S)
      → HasRoom (suc n) s
      → view s k ≡ some w
      → Runs view HasRoom (c.set k v true (some (suc ttl)) s) false (view s) n
  pub incr_lem :
      (k : String) (z : ℤ) (n : ℕ) (s : S)
      → HasRoom (suc n) s
      → parse_int_or_zero (view s k) ≡ some z
      → Runs view HasRoom
          (c.incr k s)
          (z +ℤ pos 1)
          (update (view s) k (some (int_text (z +ℤ pos 1))))
          n
  pub decr_lem :
      (k : String) (z : ℤ) (n : ℕ) (s : S)
      → HasRoom (suc n) s
      → parse_int_or_zero (view s k) ≡ some z
      → Runs view HasRoom
          (c.decr k s)
          (z -ℤ pos 1)
          (update (view s) k (some (int_text (z -ℤ pos 1))))
          n
  pub expire_lem :
      (k : String) (ttl : ℕ) (n : ℕ) (s : S)
      → HasRoom (suc n) s
      → Runs view HasRoom (c.expire k (suc ttl) s) (is_some (view s k)) (view s) n
  pub delete_lem :
      (k : String) (n : ℕ) (s : S)
      → HasRoom (suc n) s
      → Runs view HasRoom (c.delete k s) tt (update (view s) k none) n

-- What a client of the commands is given.
pub record CommandLaws {S : Type 0} (c : Commands S) : Type 1 where
  pub view : S → View
  pub HasRoom : ℕ → S → Type 0
  pub obeys : Obeys c view HasRoom

module _ {S : Type 0} {view : S → View} {HasRoom : ℕ → S → Type 0} where
  pub Runs-view :
      {A : Type 0} {x : Option A × S} {a : A} {after : View} {n : ℕ}
      → Runs view HasRoom x a after n
      → view x.1 ≡ after
  Runs-view h = fun_ext h.values

  -- The rest of a block runs from where its first command ended.
  pub bind-Runs :
      {A B : Type 0} (m : Exec S A) (f : A → Exec S B) {s : S} {a : A} {b : B} {seen after : View}
      {n k : ℕ}
      → Runs view HasRoom (m s) a seen n
      → Runs view HasRoom (f a (m s).1) b after k
      → Runs view HasRoom ((m >>= f) s) b after k
  bind-Runs m f h rest = rw h.returned rest

  pub catch-Runs :
      {A : Type 0} (m h : Exec S A) {s : S} {a : A} {after : View} {n : ℕ}
      → Runs view HasRoom (m s) a after n
      → Runs view HasRoom (catch m h s) a after n
  catch-Runs m h run =
      rw run.returned (record { returned = refl; values = run.values; room = run.room })

  pub pure-Runs :
      {A : Type 0} {s : S} (a : A) {after : View} (n : ℕ)
      → view s ≡ after
      → HasRoom n s
      → Runs view HasRoom (some a, s) a after n
  pure-Runs a n e room = record { returned = refl; values = λ j. rw e; room = room }
