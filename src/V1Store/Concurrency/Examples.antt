-- ===== src/V1Store/Concurrency/Examples.antt =====
-- Two requests for the only slot of a subject.
use omnibioai_api_gateway.Prelude.{◌≤◌, ◌+◌, refl, [], ◌∷◌}
use omnibioai_api_gateway.Prelude.Int.{ℤ, pos, ◌+ℤ◌, ◌-ℤ◌}
use omnibioai_api_gateway.Interleaving.{System, total, Reach, here, next, move}
use omnibioai_api_gateway.V1Store.Concurrency.Concurrent.{
  Stage, arriving, running, over, denied, Move, enter, back_out, start, is_running, running-le,
  slips,
}

-- The first runs; the second is counted, and backs out.
abbrev after_race : System ℤ Stage
after_race = record { value = pos 1; requests = running ∷ denied ∷ [] }

race : Reach (Move 1) (start 2) after_race
unfolding ◌+ℤ◌ ◌-ℤ◌
race =
    next
      (next
        (next here (
          move [] arriving running (arriving ∷ []) (pos 0) (pos 1)
            (enter (pos 0) (pos 1) running refl refl)))
        (move (running ∷ []) arriving over [] (pos 1) (pos 2)
          (enter (pos 1) (pos 2) over refl refl)))
      (move (running ∷ []) over denied [] (pos 2) (pos 1) (back_out (pos 2) (pos 1) refl))

running-le_example : total is_running (running ∷ denied ∷ []) ≤ 1 + slips race
running-le_example = running-le 1 2 {t = after_race} race
