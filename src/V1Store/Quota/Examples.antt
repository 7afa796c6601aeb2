-- ===== src/V1Store/Quota/Examples.antt =====
-- Two requests for the last unit of a quota, with their commands interleaved.
use omnibioai_api_gateway.Prelude.{◌≤◌, ◌+◌, refl, [], ◌∷◌}
use omnibioai_api_gateway.Prelude.Int.{ℤ, pos, negsuc, ◌+ℤ◌, ◌-ℤ◌}
use omnibioai_api_gateway.Interleaving.{System, total, Reach, here, next, move}
use omnibioai_api_gateway.V1Store.Quota.Concurrent.{
  Stage, waiting, checked, reserved, refusing, refused, Move, check, take_unit, compensate, start,
  holds, reservations-le, slips,
}

-- Both see the unit before either takes it; the first takes it, and the second is refused.
abbrev after_race : System ℤ Stage
after_race = record { value = pos 0; requests = reserved ∷ refused ∷ [] }

race : Reach Move (start 1 2) after_race
unfolding ◌+ℤ◌ ◌-ℤ◌
race =
    next
      (next
        (next
          (next (next here (move [] waiting checked (waiting ∷ []) (pos 1) (pos 1) (check (pos 1))))
            (move (checked ∷ []) waiting checked [] (pos 1) (pos 1) (check (pos 1))))
          (move [] checked reserved (checked ∷ []) (pos 1) (pos 0)
            (take_unit (pos 1) (pos 0) reserved refl refl)))
        (move (reserved ∷ []) checked refusing [] (pos 0) (negsuc 0)
          (take_unit (pos 0) (negsuc 0) refusing refl refl)))
      (move (reserved ∷ []) refusing refused [] (negsuc 0) (pos 0)
        (compensate (negsuc 0) (pos 0) refl))

reservations-le_example : total holds (reserved ∷ refused ∷ []) ≤ 1 + slips race
reservations-le_example = reservations-le 1 2 {t = after_race} race
