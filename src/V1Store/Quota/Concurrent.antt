-- ===== src/V1Store/Quota/Concurrent.antt =====
-- Requests that call `reserve_quota` and `release_quota` of one metered counter at the same time.
-- Each Redis command is atomic; between the commands of one request others may run.
use omnibioai_api_gateway.Prelude.{
  ℕ, ◌+◌, ◌≤◌, ◌≡◌, refl, ◌∷◌, ◌++◌, ◌⊎◌, inl, inr, arith, if◌then◌else◌, replicate,
}
use omnibioai_api_gateway.Prelude.Int.{ℤ, pos, neg_part, ltb_ℤ, ◌+ℤ◌, ◌-ℤ◌, ◌≤ℤ◌, int_laws}
use omnibioai_api_gateway.Interleaving.{
  System, total, total-le, total-append_cons, total-replicate, move, Reach, here, next, costs,
}

-- Where a request stands: before its GET, between its GET and its DECR, after a DECR that left
-- the counter at zero or more or that raised, after one that did not, and at the end of each way.
pub data Stage : Type 0 where
  waiting checked reserved refusing refused refunded : Stage

-- if value < 0: compensate
abbrev pub after_decr : ℤ → Stage
after_decr value = if ltb_ℤ value (pos 0) then refusing else reserved

-- A command that raises, before or after it took effect. `reserve_quota` lets the request through then, and
-- does not care whether a compensation or a refund went through.
pub data Move : Stage → ℤ → Stage → ℤ → Type 0 where
  check : (v : ℤ) → Move waiting v checked v
  check_fails : (v : ℤ) → Move waiting v reserved v
  take_unit : (v v' : ℤ) (q : Stage) → v' ≡ v -ℤ pos 1 → q ≡ after_decr v' → Move checked v q v'
  take_fails : (v v' : ℤ) → (v' ≡ v) ⊎ (v' ≡ v -ℤ pos 1) → Move checked v reserved v'
  compensate : (v v' : ℤ) → v' ≡ v +ℤ pos 1 → Move refusing v refused v'
  compensate_fails : (v : ℤ) → Move refusing v refused v
  refund : (v v' : ℤ) → v' ≡ v +ℤ pos 1 → Move reserved v refunded v'
  refund_fails : (v : ℤ) → Move reserved v refunded v

-- The requests that are let through because a command raised.
abbrev pub slip : (p : Stage) (v : ℤ) (q : Stage) (v' : ℤ) → Move p v q v' → ℕ
slip _ _ _ _ (check_fails v) = 1
slip _ _ _ _ (take_fails v v' e) = 1
slip _ _ _ _ _ = 0

abbrev pub holds : Stage → ℕ
holds reserved = 1
holds _ = 0

abbrev taken : Stage → ℕ
taken reserved = 1
taken refusing = 1
taken _ = 0

taken-after_decr : (v : ℤ) → taken (after_decr v) ≡ 1
taken-after_decr v = ground arith

-- What is left and what the requests have taken is no more than `n` units.
Move-keeps :
    {p q : Stage} {v v' : ℤ} (a n : ℕ) (m : Move p v q v')
    → v +ℤ pos (a + taken p) ≤ℤ pos n
    → v' +ℤ pos (a + taken q) ≤ℤ pos (n + slip p v q v' m)
Move-keeps a n (check v) h = omega (int_laws, h)
Move-keeps a n (check_fails v) h = omega (int_laws, h)
Move-keeps a n (take_unit v v' q e f) h = rw (f, taken-after_decr v', e) (omega (int_laws, h))
Move-keeps a n (take_fails v v' (inl e)) h = rw e (omega (int_laws, h))
Move-keeps a n (take_fails v v' (inr e)) h = rw e (omega (int_laws, h))
Move-keeps a n (compensate v v' e) h = rw e (omega (int_laws, h))
Move-keeps a n (compensate_fails v) h = omega (int_laws, h)
Move-keeps a n (refund v v' e) h = rw e (omega (int_laws, h))
Move-keeps a n (refund_fails v) h = omega (int_laws, h)

after_decr_guards : (w : ℤ) → (holds (after_decr w) ≤ 0) ⊎ (neg_part w ≡ 0)
after_decr_guards w = ground arith

-- A move lets no further request hold a unit but by a slip, or it leaves the counter at zero or more.
Move-guards :
    {p q : Stage} {v v' : ℤ} (m : Move p v q v')
    → (holds q ≤ holds p + slip p v q v' m) ⊎ (neg_part v' ≡ 0)
Move-guards (check v) = inl (omega arith)
Move-guards (check_fails v) = inl (omega arith)
Move-guards (take_unit v v' q e f) = rw f (after_decr_guards v')
Move-guards (take_fails v v' e) = inl (omega arith)
Move-guards (compensate v v' e) = inl (omega arith)
Move-guards (compensate_fails v) = inl (omega arith)
Move-guards (refund v v' e) = inl (omega arith)
Move-guards (refund_fails v) = inl (omega arith)

-- `n` requests that arrive while the counter stands at `units`.
abbrev pub start : ℕ → ℕ → System ℤ Stage
start units n = record { value = pos units; requests = replicate n waiting }

abbrev pub slips : {s t : System ℤ Stage} → Reach Move s t → ℕ
slips r = costs Move slip r

balance :
    (units n : ℕ) {t : System ℤ Stage} (r : Reach Move (start units n) t)
    → t.value +ℤ pos (total taken t.requests) ≤ℤ pos (units + slips r)
unfolding costs
balance units n here = omega (int_laws, total-replicate taken waiting refl n)
balance units n (next r (move before p q after v v' m)) =
    let rest = total taken before + total taken after in
    let h : v +ℤ pos (rest + taken p) ≤ℤ pos (units + slips r) =
      omega (int_laws, balance units n r, total-append_cons taken before p after) in
    omega (int_laws, Move-keeps rest (units + slips r) m h, total-append_cons taken before q after)

-- However the commands of the requests interleave, whichever of them raise, and whatever refunds come in between,
-- the requests that hold a unit are never more than the counter's units at the start and the
-- requests that were let through because a command raised, as long as nobody else writes the counter.
pub reservations-le :
    (units n : ℕ) {t : System ℤ Stage} (r : Reach Move (start units n) t)
    → total holds t.requests ≤ units + slips r
unfolding costs
reservations-le units n here = omega (arith, total-replicate holds waiting refl n)
reservations-le units n (next r (move before p q after v v' m)) = elim (Move-guards m) [
  | inl fewer ↦
      rw total-append_cons
        (omega (arith, fewer, rw total-append_cons at (reservations-le units n r)))
  | inr nonneg ↦ omega (
    int_laws,
    balance units n (next r (move before p q after v v' m)),
    nonneg,
    total-le holds taken holds_le (before ++ q ∷ after),
  )
]
  where
    holds_le : (p : Stage) → holds p ≤ taken p
    holds_le p = ground arith
