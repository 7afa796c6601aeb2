-- ===== src/V1Store/RateLimit/Promises.antt =====
-- What `remaining` in the rate-limit headers promises a caller.
use native.Mathlib.Nat.{add-zero, sub_self, zero-mul}
use omnibioai_api_gateway.Prelude.{
  ℕ, zero, suc, ◌-◌, ◌*◌, ◌/◌, ◌≤◌, min, ◌≡◌, false, arith, leb, replicate, Bool-cases, inl, inr,
}
use omnibioai_api_gateway.V1Store.{token, refill, take_token, answer}
use omnibioai_api_gateway.V1Store.RateLimit.{Call, allowed_calls}

abbrev pub at_once : Call
at_once = record { gap = 0; forgotten = false }

refill_now :
    (limit tokens now : ℕ) → tokens ≤ limit * token → refill limit (tokens, now) now ≡ tokens
unfolding refill
refill_now limit tokens now h = rw (sub_self, zero-mul) (omega arith)

-- Of calls made at one moment as many are allowed as the bucket has whole tokens.
burst :
    (limit tokens now k : ℕ)
    → tokens ≤ limit * token
    → allowed_calls limit (tokens, now) (replicate k at_once) ≡ min k (tokens / token)
unfolding allowed_calls answer take_token
burst limit tokens now zero h = omega arith
burst limit tokens now (suc k) h =
    simp (add-zero, refill_now limit tokens now h)
      (elim (Bool-cases (leb token tokens)) [
        | inl paid ↦ rw paid (ground (arith, burst limit (tokens - token) now k (omega arith)))
        | inr short ↦ rw short (ground (arith, burst limit tokens now k h))
      ])

-- `remaining` is exact: of `k` calls made at once after an answer, exactly the first `remaining` are
-- allowed.
pub remaining_exact :
    (limit tokens now k : ℕ)
    → tokens ≤ limit * token
    → allowed_calls limit (take_token tokens, now) (replicate k at_once)
      ≡ min k (answer limit tokens).1
unfolding answer
remaining_exact limit tokens now k h =
    burst limit (take_token tokens) now k (unfold take_token in ground arith)
