-- ===== src/Outbox/Delivery.antt =====
-- What draining the outbox delivers, whatever fails.
use omnibioai_api_gateway.Prelude.{
  ℕ, ◌+◌, ◌<◌, ◌≡◌, refl, sym, ap, ◌∙◌, ◌⊎◌, inl, inr, Bool, true, false, List, [], ◌∷◌, ◌++◌, map,
  length, All, arith, Bool-cases,
}
use omnibioai_api_gateway.Exec.{Exec}
use omnibioai_api_gateway.Outbox.{
  Row, Store, delete_row, write, is_ok, try_flush, drain_rows, drain,
}

-- The ids grow along the table, and the next id is above all of them.
abbrev pub IsOrdered : {E : Type 0} → List (Row E) → ℕ → Type 0
IsOrdered [] next = Unit
IsOrdered (r ∷ rs) next = All (λ q. r.id < q.id) rs × (r.id < next) × IsOrdered rs next

delete_row-absent :
    {E : Type 0} (id : ℕ) (rs : List (Row E)) → All (λ q. id < q.id) rs → delete_row id rs ≡ rs
unfolding delete_row
delete_row-absent id [] h = refl
delete_row-absent id (r ∷ rs) h = ground (arith, delete_row-absent id rs h.1, h.0)

pub delete_row-first :
    {E : Type 0} (r : Row E) (rs : List (Row E))
    → All (λ q. r.id < q.id) rs
    → delete_row r.id (r ∷ rs) ≡ rs
unfolding delete_row
delete_row-first r rs h = ground (arith, delete_row-absent r.id rs h)

module _ {E S : Type 0} (flush : E → Exec S Bool) where
  -- The world goes from `w` to `w'` by flushing `es` in this order with success, and then at most one event
  -- without.
  pub data Sent : List E → S → S → Type 0 where
    end_of : (w : S) → Sent [] w w
    failed : (e : E) (w : S) → is_ok (flush e w).0 ≡ false → Sent [] w (flush e w).1
    sent :
        (e : E) (es : List E) (w w' : S)
        → is_ok (flush e w).0 ≡ true
        → Sent es (flush e w).1 w'
        → Sent (e ∷ es) w w'

  -- `n` rows from the front of the table were flushed and deleted, in order, and the others are still there. The
  -- first of these may have been flushed too, where its deletion failed; no other was.
  pub record Drained (rows : List (Row E)) (w : S) (n : ℕ) (s' : Store E S) : Type 0 where
    pub gone : List (Row E)
    pub split : rows ≡ gone ++ s'.rows
    pub count : n ≡ length gone
    pub again : List (Row E)
    pub tail :
        (again ≡ []) ⊎ ((r : Row E) × (rs : List (Row E)) × (s'.rows ≡ r ∷ rs) × (again ≡ r ∷ []))
    pub calls : Sent (map (λ r. r.event) (gone ++ again)) w s'.world
    pub ordered : IsOrdered s'.rows s'.next_id

  one_more :
      (r : Row E) (rs : List (Row E)) (w : S) (n : ℕ) (s' : Store E S)
      → is_ok (flush r.event w).0 ≡ true
      → Drained rs (flush r.event w).1 n s'
      → Drained (r ∷ rs) w (n + 1) s'
  one_more r rs w n s' ok d = record {
    gone = r ∷ d.gone;
    split = ap (λ q. r ∷ q) d.split;
    count = omega (arith, d.count);
    again = d.again;
    tail = d.tail;
    calls = sent r.event (map (λ q. q.event) (d.gone ++ d.again)) w s'.world ok d.calls;
    ordered = d.ordered;
  }

  module _ (works : ℕ → Bool) where
    drain_rows-Drained :
        (rows : List (Row E)) (flushed : ℕ) (s : Store E S)
        → s.rows ≡ rows
        → IsOrdered rows s.next_id
        → (n : ℕ) × ((drain_rows works flush rows flushed s).0 ≡ flushed + n)
          × Drained rows s.world n (drain_rows works flush rows flushed s).1
    unfolding drain_rows try_flush
    drain_rows-Drained [] flushed s same h = (
      0,
      omega arith,
      record {
        gone = [];
        split = sym same;
        count = refl;
        again = [];
        tail = inl refl;
        calls = end_of s.world;
        ordered = rw same h;
      },
    )
    drain_rows-Drained (r ∷ rs) flushed s same h =
        elim (Bool-cases (is_ok (flush r.event s.world).0)) [
          | inr refused ↦ rw refused (
            0,
            omega arith,
            record {
              gone = [];
              split = sym same;
              count = refl;
              again = [];
              tail = inl refl;
              calls = failed r.event s.world refused;
              ordered = rw same h;
            },
          )
          | inl ok ↦ elim (Bool-cases (works s.uses)) [
            | inr broken ↦
                rw (ok, broken)
                  (
                    0,
                    omega arith,
                    record {
                      gone = [];
                      split = sym same;
                      count = refl;
                      again = r ∷ [];
                      tail = inr (r, rs, same, refl);
                      calls =
                          sent r.event [] s.world (flush r.event s.world).1 ok
                            (end_of (flush r.event s.world).1);
                      ordered = rw same h;
                    },
                  )
            | inl working ↦
                let after : Store E S = record s {
                  rows = delete_row r.id s.rows;
                  uses = s.uses + 1;
                  world = (flush r.event s.world).1;
                } in
                let first : delete_row r.id s.rows ≡ rs =
                  ap (delete_row r.id) same ∙ delete_row-first r rs h.0 in
                let rest = drain_rows-Drained rs (flushed + 1) after first h.2 in
                rw (ok, working)
                  (rest.0 + 1, omega (arith, rest.1), one_more r rs s.world rest.0 _ ok rest.2)
          ]
        ]

    -- Of a table whose ids grow, whatever fails, the flushing, the deletion or the file, `drain`
    -- returns the number n of rows that it deleted, and these are the first n of the table, flushed
    -- in their order; the others are kept. Of those at most the first was flushed as well, so that
    -- an event is never lost and a drain repeats at most one.
    pub drain-Drained :
        (s : Store E S)
        → IsOrdered s.rows s.next_id
        → Drained s.rows s.world (drain works flush s).0 (drain works flush s).1
    unfolding drain
    drain-Drained s h = elim (Bool-cases (works s.uses)) [
      | inr broken ↦ rw broken (record {
        gone = [];
        split = refl;
        count = refl;
        again = [];
        tail = inl refl;
        calls = end_of s.world;
        ordered = h;
      })
      | inl working ↦
          let t = drain_rows-Drained s.rows 0 (record s { uses = s.uses + 1 }) refl h in
          let counted : (drain_rows works flush s.rows 0 (record s { uses = s.uses + 1 })).0 ≡ t.0 =
            omega (arith, t.1) in
          rw (working, counted) t.2
    ]

-- A row that is added at the end with the next id keeps the order.
All-below :
    {E : Type 0} (n : ℕ) (rs : List (Row E)) (r : Row E)
    → All (λ q. n < q.id) rs
    → n < r.id
    → All (λ q. n < q.id) (rs ++ r ∷ [])
All-below n [] r h k = (k, tt)
All-below n (q ∷ rs) r h k = (h.0, All-below n rs r h.1 k)

pub insert-IsOrdered :
    {E : Type 0} (rs : List (Row E)) (next : ℕ) (e : E)
    → IsOrdered rs next
    → IsOrdered (rs ++ record { id = next; event = e } ∷ []) (next + 1)
insert-IsOrdered [] next e h = (tt, omega arith, tt)
insert-IsOrdered (r ∷ rs) next e h = (
  All-below r.id rs (record { id = next; event = e }) h.0 h.1,
  omega (arith, h.1),
  insert-IsOrdered rs next e h.2,
)

module _ {E S : Type 0} (works : ℕ → Bool) (e : E) (s : Store E S) where
  pub write_working :
      works s.uses ≡ true
      → write works e s ≡ record s {
        rows = s.rows ++ record { id = s.next_id; event = e } ∷ [];
        next_id = s.next_id + 1;
        uses = s.uses + 1;
      }
  unfolding write
  write_working h = rw (write, h)

  pub write_broken : works s.uses ≡ false → write works e s ≡ record s { uses = s.uses + 1 }
  unfolding write
  write_broken h = rw (write, h)

-- What `drain-Drained` asks of the table is kept by `write`, so that it holds of every table that `write` and
-- `drain` have made of an empty one.
pub write-IsOrdered :
    {E S : Type 0} (works : ℕ → Bool) (e : E) (s : Store E S)
    → IsOrdered s.rows s.next_id
    → IsOrdered (write works e s).rows (write works e s).next_id
write-IsOrdered works e s h = elim (Bool-cases (works s.uses)) [
  | inl working ↦ rw (write_working works e s working) (insert-IsOrdered s.rows s.next_id e h)
  | inr broken ↦ rw (write_broken works e s broken) h
]
