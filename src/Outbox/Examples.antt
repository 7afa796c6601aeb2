-- ===== src/Outbox/Examples.antt =====
-- An outbox whose third use of the file fails.
use omnibioai_api_gateway.Prelude.{ℕ, ◌≡◌, refl, Bool, true, some, List, [], ◌∷◌, not, eqb, arith}
use omnibioai_api_gateway.Exec.{Exec}
use omnibioai_api_gateway.Outbox.{Store, drain}
use omnibioai_api_gateway.Outbox.Delivery.{IsOrdered, Drained, drain-Drained}

abbrev works : ℕ → Bool
works n = not (eqb n 2)

abbrev flush : ℕ → Exec (List ℕ) Bool
flush e w = (some true, e ∷ w)

abbrev store : Store ℕ (List ℕ)
store = record {
  rows =
      record { id = 1; event = 7 }
      ∷ record { id = 2; event = 8 }
      ∷ record { id = 3; event = 9 }
      ∷ [];
  next_id = 4;
  uses = 0;
  world = [];
}

store-IsOrdered : IsOrdered store.rows store.next_id
store-IsOrdered = (
  (omega arith, (omega arith, tt)),
  omega arith,
  ((omega arith, tt), omega arith, (tt, omega arith, tt)),
)

drain-Drained_example :
    Drained flush store.rows store.world (drain works flush store).0 (drain works flush store).1
drain-Drained_example = drain-Drained flush works store store-IsOrdered

-- The deletion of the second row fails: it is flushed, and stays.
one_is_repeated :
    ((drain works flush store).0 ≡ 1) × ((drain works flush store).1.world ≡ 8 ∷ 7 ∷ [])
unfolding drain
one_is_repeated = (refl, refl)
