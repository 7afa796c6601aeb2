-- ===== src/V1Store/RateLimit.antt =====
-- The token bucket of `V1Store.hit_rate_limit`: how much it lets through, and when it denies.
pub mod Refinement
pub mod Promises
pub mod Concurrent
use omnibioai_api_gateway.Prelude.{
  ℕ, zero, suc, ◌+◌, ◌-◌, ◌*◌, ◌/◌, ◌≤◌, ◌<◌, min, ◌≡◌, Bool, true, false, List, [], ◌∷◌, arith,
  if◌then◌else◌, leb, All, Bool-cases, inl, inr,
}
use omnibioai_api_gateway.MemoryStore.{second}
use omnibioai_api_gateway.V1Store.{
  token, Bucket, refill, fresh, take_token, answer, reset_after, ceil_div,
}

-- A call: how long after the one before it comes, and whether the record has expired by then.
pub record Call : Type 0 where
  pub gap : ℕ
  pub forgotten : Bool

abbrev pub bucket_at : ℕ → Bucket → ℕ → Bool → Bucket
bucket_at limit b now forgotten = if forgotten then fresh limit now else b

abbrev pub spend : ℕ → Bucket → ℕ → Bucket
spend limit b now = (take_token (refill limit b now), now)

abbrev pub count_of : Bool → ℕ
count_of true = 1
count_of false = 0

-- How many of the calls `hit_rate_limit` allows.
unfoldable pub allowed_calls : ℕ → Bucket → List Call → ℕ
allowed_calls limit b [] = 0
allowed_calls limit b (c ∷ cs) =
    let now = b.1 + c.gap in
    let found = bucket_at limit b now c.forgotten in
    count_of (answer limit (refill limit found now)).0
    + allowed_calls limit (spend limit found now) cs

abbrev pub elapsed : List Call → ℕ
elapsed [] = 0
elapsed (c ∷ cs) = c.gap + elapsed cs

-- A record is written with `ex=120`, so it is gone only after 120 s.
abbrev pub KeepsRecord : Call → Type 0
KeepsRecord c = c.forgotten ≡ true → 120 * second ≤ c.gap

-- What one call takes from the bucket and leaves in it, it had or has earned since.
spend_bound :
    (limit tokens last gap : ℕ)
    → count_of (leb token (refill limit (tokens, last) (last + gap))) * token
        + take_token (refill limit (tokens, last) (last + gap))
      ≤ tokens + gap * limit
unfolding refill take_token
spend_bound limit tokens last gap = ground arith

fresh_bound :
    (limit now : ℕ)
    → count_of (leb token (refill limit (fresh limit now) now)) * token
        + take_token (refill limit (fresh limit now) now)
      ≤ limit * token
unfolding refill take_token
fresh_bound limit now = ground arith

earned_since : (limit gap : ℕ) → 120 * second ≤ gap → limit * token ≤ gap * limit
earned_since limit gap h = grind arith

call_bound :
    (limit tokens last : ℕ) (c : Call)
    → KeepsRecord c
    → count_of
            (answer limit (
              refill limit
                (bucket_at limit (tokens, last) (last + c.gap) c.forgotten)
                (last + c.gap))).0
          * token
        + (spend limit (bucket_at limit (tokens, last) (last + c.gap) c.forgotten) (last + c.gap)).0
      ≤ tokens + c.gap * limit
unfolding answer
call_bound limit tokens last c h = elim (Bool-cases c.forgotten) [
  | inl gone ↦
      rw gone (omega (arith, fresh_bound limit (last + c.gap), earned_since limit c.gap (h gone)))
  | inr kept ↦ rw kept (spend_bound limit tokens last c.gap)
]

-- A subject whose calls run one after another, however they are timed and whether or not its record expires
-- in between (which it does only after 120 s), has at most so many of them allowed: those that its
-- tokens at the start pay for, and `limit` a minute since.
pub allowed_calls-le :
    (limit : ℕ) (b : Bucket) (cs : List Call)
    → All KeepsRecord cs
    → allowed_calls limit b cs * token ≤ b.0 + elapsed cs * limit
unfolding allowed_calls
allowed_calls-le limit b [] h = omega arith
allowed_calls-le limit (tokens, last) (c ∷ cs) h = omega (
  arith,
  call_bound limit tokens last c h.0,
  allowed_calls-le limit
      (spend limit (bucket_at limit (tokens, last) (last + c.gap) c.forgotten) (last + c.gap)) cs
      h.1,
)
