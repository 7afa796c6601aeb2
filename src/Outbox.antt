-- ===== src/Outbox.antt =====
-- app/services/outbox.py: the usage events that wait in a SQLite file, which may fail at any use.
pub mod Delivery
pub mod Usage
mod Examples
pub mod Emit
use omnibioai_api_gateway.Prelude.{
  ℕ, zero, suc, ◌+◌, Bool, true, false, Option, none, some, List, [], ◌∷◌, ◌++◌, if◌then◌else◌, eqb,
  length,
}
use omnibioai_api_gateway.Exec.{Exec}

-- A row of pending_events; its payload is the event that it was printed from.
pub record Row (E : Type 0) : Type 0 where
  pub id : ℕ
  pub event : E

-- The table with the next value of its AUTOINCREMENT column, how often the file was used, and the
-- state of what `flush` writes to.
pub record Store (E S : Type 0) : Type 0 where
  pub rows : List (Row E)
  pub next_id : ℕ
  pub uses : ℕ
  pub world : S

-- DELETE FROM pending_events WHERE id = ?
unfoldable pub delete_row : {E : Type 0} → ℕ → List (Row E) → List (Row E)
delete_row id [] = []
delete_row id (r ∷ rs) = let rest = delete_row id rs in if eqb r.id id then rest else r ∷ rest

abbrev pub or_zero : Option ℕ → ℕ
or_zero none = 0
or_zero (some n) = n

-- ok = await flush(event), False where it raises
abbrev pub is_ok : Option Bool → Bool
is_ok none = false
is_ok (some b) = b

-- `works n` is whether the n-th use of the file succeeds: connecting, the statement and its commit.
module _ {E S : Type 0} (works : ℕ → Bool) where
  -- One use of the file.
  abbrev pub use_file : {A : Type 0} → (Store E S → A × Store E S) → Exec (Store E S) A
  use_file f s =
      let (a, s') = f s in
      if works s.uses
      then (some a, record s' { uses = s.uses + 1 })
      else (none, record s { uses = s.uses + 1 })

  abbrev pub insert_row : E → Store E S → Unit {0} × Store E S
  insert_row e s = (
    tt,
    record s {
      rows = s.rows ++ record { id = s.next_id; event = e } ∷ [];
      next_id = s.next_id + 1;
    },
  )

  -- `write` never raises.
  unfoldable pub write : E → Store E S → Store E S
  write e s = (use_file (insert_row e) s).1

  unfoldable pub pending_count : Store E S → ℕ × Store E S
  pending_count s = let (n, s') = use_file (λ t. (length t.rows, t)) s in (or_zero n, s')

  -- `flush` may raise.
  module _ (flush : E → Exec S Bool) where
    unfoldable pub try_flush : E → Store E S → Bool × Store E S
    try_flush e s = let (r, w) = flush e s.world in (is_ok r, record s { world = w })

    abbrev pub remove : ℕ → Store E S → Unit {0} × Store E S
    remove id s = (tt, record s { rows = delete_row id s.rows })

    -- A DELETE that fails ends the loop by an exception.
    abbrev pub after_remove :
        Option (Unit {0}) → (ℕ → Store E S → ℕ × Store E S) → ℕ → Store E S → ℕ × Store E S
    after_remove none next flushed s = (flushed, s)
    after_remove (some u) next flushed s = next (flushed + 1) s

    abbrev pub after_flush :
        Bool → ℕ → (ℕ → Store E S → ℕ × Store E S) → ℕ → Store E S → ℕ × Store E S
    after_flush false id next flushed s = (flushed, s)
    after_flush true id next flushed s =
        let (removed, s') = use_file (remove id) s in after_remove removed next flushed s'

    -- The loop over the rows that were read; `flushed` counts.
    unfoldable pub drain_rows : List (Row E) → ℕ → Store E S → ℕ × Store E S
    unfolding try_flush delete_row
    drain_rows [] flushed s = (flushed, s)
    drain_rows (r ∷ rs) flushed s =
        let next = drain_rows rs in
        let (ok, s') = try_flush r.event s in after_flush ok r.id next flushed s'

    abbrev pub drain_read : Option (List (Row E)) → Store E S → ℕ × Store E S
    drain_read none s = (0, s)
    drain_read (some rows) s = drain_rows rows 0 s

    -- `drain` never raises; it returns how many events it flushed.
    unfoldable pub drain : Store E S → ℕ × Store E S
    unfolding drain_rows
    drain s = let (rows, s') = use_file (λ t. (t.rows, t)) s in drain_read rows s'
