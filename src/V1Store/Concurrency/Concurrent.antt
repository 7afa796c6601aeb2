-- ===== src/V1Store/Concurrency/Concurrent.antt =====
-- Requests that call `acquire_concurrency_slot` and `release_concurrency_slot` of one subject at
-- the same time.
use omnibioai_api_gateway.Prelude.{
  ℕ, ◌+◌, ◌≤◌, ◌≡◌, refl, ◌⊎◌, inl, inr, ◌++◌, ◌∷◌, arith, if◌then◌else◌, replicate,
}
use omnibioai_api_gateway.Prelude.Int.{ℤ, pos, pos_part, ltb_ℤ, ◌+ℤ◌, ◌-ℤ◌, ◌≤ℤ◌, int_laws}
use omnibioai_api_gateway.Interleaving.{
  System, total, total-le, total-append_cons, total-replicate, move, Reach, here, next, costs,
}

-- Where a request stands: before its INCR, after an INCR within the limit or one that raised, after one over it, and
-- at the end of each way.
pub data Stage : Type 0 where
  arriving running over denied finished : Stage

-- if count > limit: decrement back out
abbrev pub after_incr : ℕ → ℤ → Stage
after_incr limit count = if ltb_ℤ (pos limit) count then over else running

-- A command may raise, before or after it took effect, and the counter may expire at any time.
pub data Move (limit : ℕ) : Stage → ℤ → Stage → ℤ → Type 0 where
  enter :
      (v v' : ℤ) (q : Stage)
      → v' ≡ v +ℤ pos 1
      → q ≡ after_incr limit v'
      → Move limit arriving v q v'
  enter_fails : (v v' : ℤ) → (v' ≡ v) ⊎ (v' ≡ v +ℤ pos 1) → Move limit arriving v running v'
  back_out : (v v' : ℤ) → v' ≡ v -ℤ pos 1 → Move limit over v denied v'
  back_out_fails : (v : ℤ) → Move limit over v denied v
  leave : (v v' : ℤ) → v' ≡ v -ℤ pos 1 → Move limit running v finished v'
  leave_fails : (v : ℤ) → Move limit running v finished v
  lapse : (p : Stage) (v : ℤ) → Move limit p v p (pos 0)

-- A request that runs because its INCR or EXPIRE raised, and the slots of a counter that expires.
abbrev pub slip : (limit : ℕ) (p : Stage) (v : ℤ) (q : Stage) (v' : ℤ) → Move limit p v q v' → ℕ
slip _ _ _ _ _ (enter_fails v v' e) = 1
slip _ _ _ _ _ (lapse p v) = pos_part v
slip _ _ _ _ _ _ = 0

abbrev pub is_running : Stage → ℕ
is_running running = 1
is_running _ = 0

abbrev counted : Stage → ℕ
counted running = 1
counted over = 1
counted _ = 0

counted-after_incr : (limit : ℕ) (v : ℤ) → counted (after_incr limit v) ≡ 1
counted-after_incr limit v = ground arith

-- The counter and the slips are no less than the requests that are counted.
Move-keeps :
    {limit : ℕ} {p q : Stage} {v v' : ℤ} (a n : ℕ) (m : Move limit p v q v')
    → pos (a + counted p) ≤ℤ v +ℤ pos n
    → pos (a + counted q) ≤ℤ v' +ℤ pos (n + slip limit p v q v' m)
Move-keeps {limit} a n (enter v v' q e f) h =
    rw (f, counted-after_incr limit v', e) (omega (int_laws, h))
Move-keeps a n (enter_fails v v' (inl e)) h = rw e (omega (int_laws, h))
Move-keeps a n (enter_fails v v' (inr e)) h = rw e (omega (int_laws, h))
Move-keeps a n (back_out v v' e) h = rw e (omega (int_laws, h))
Move-keeps a n (back_out_fails v) h = omega (int_laws, h)
Move-keeps a n (leave v v' e) h = rw e (omega (int_laws, h))
Move-keeps a n (leave_fails v) h = omega (int_laws, h)
Move-keeps a n (lapse p v) h = omega (int_laws, h)

after_incr_guards :
    (limit : ℕ) (w : ℤ) → (is_running (after_incr limit w) ≤ 0) ⊎ (pos_part w ≤ limit)
after_incr_guards limit w = ground arith

-- A move lets no further request run but by a slip, or it leaves the counter within the limit.
Move-guards :
    {limit : ℕ} {p q : Stage} {v v' : ℤ} (m : Move limit p v q v')
    → (is_running q ≤ is_running p + slip limit p v q v' m) ⊎ (pos_part v' ≤ limit)
Move-guards {limit} (enter v v' q e f) = rw f (after_incr_guards limit v')
Move-guards (enter_fails v v' e) = inl (omega arith)
Move-guards (back_out v v' e) = inl (omega arith)
Move-guards (back_out_fails v) = inl (omega arith)
Move-guards (leave v v' e) = inl (omega arith)
Move-guards (leave_fails v) = inl (omega arith)
Move-guards (lapse p v) = inl (omega arith)

-- `n` requests arrive while nothing is in flight.
abbrev pub start : ℕ → System ℤ Stage
start n = record { value = pos 0; requests = replicate n arriving }

abbrev pub slips : {limit : ℕ} {s t : System ℤ Stage} → Reach (Move limit) s t → ℕ
slips {limit} r = costs (Move limit) (slip limit) r

balance :
    (limit n : ℕ) {t : System ℤ Stage} (r : Reach (Move limit) (start n) t)
    → pos (total counted t.requests) ≤ℤ t.value +ℤ pos (slips r)
unfolding costs
balance limit n here = omega (int_laws, total-replicate counted arriving refl n)
balance limit n (next r (move before p q after v v' m)) =
    let rest = total counted before + total counted after in
    let h : pos (rest + counted p) ≤ℤ v +ℤ pos (slips r) =
      omega (int_laws, balance limit n r, total-append_cons counted before p after) in
    omega (int_laws, Move-keeps rest (slips r) m h, total-append_cons counted before q after)

-- However the commands of the requests interleave, whichever of them raise, and whenever the counter expires, the
-- requests that run at once are at most `limit`, the requests that were let in because a
-- command raised, and the slots that were counted when the counter expired.
pub running-le :
    (limit n : ℕ) {t : System ℤ Stage} (r : Reach (Move limit) (start n) t)
    → total is_running t.requests ≤ limit + slips r
unfolding costs
running-le limit n here = omega (arith, total-replicate is_running arriving refl n)
running-le limit n (next r (move before p q after v v' m)) = elim (Move-guards m) [
  | inl fewer ↦
      rw total-append_cons (omega (arith, fewer, rw total-append_cons at (running-le limit n r)))
  | inr within ↦ omega (
    int_laws,
    balance limit n (next r (move before p q after v v' m)),
    within,
    total-le is_running counted running_le (before ++ q ∷ after),
  )
]
  where
    running_le : (p : Stage) → is_running p ≤ counted p
    running_le p = ground arith
