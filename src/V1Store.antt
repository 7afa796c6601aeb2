-- ===== src/V1Store.antt =====
-- `V1Store` of app/services/v1_store.py: rate limits, in-flight counters, quotas and
-- idempotency records of the public API, over any implementation of the Redis commands.
-- Tokens are exact: a token is 60,000,000 units, so that a bucket with `limit` tokens a minute
-- earns `limit` units in a microsecond. Times are in microseconds.
pub mod RateLimit
mod Examples
pub mod Quota
pub mod Concurrency
pub mod Idempotency
pub mod Keys
pub mod Down
pub mod Frame
use omnibioai_api_gateway.Prelude.{
  ℕ, zero, suc, ◌+◌, ◌-◌, ◌*◌, ◌/◌, ◌≤◌, min, String, Bool, true, false, ◌&&◌, Option, none, some,
  ◌==◌, if◌then◌else◌, leb, ltb, is_some,
}
use Prim.Native.Nat.{max}
use omnibioai_api_gateway.Prelude.Int.{ℤ, pos, negsuc, ltb_ℤ}
use omnibioai_api_gateway.Json.{Json}
use omnibioai_api_gateway.Exec.{Exec, pure, raise, or_raise, catch, ◌>>=◌, ◌>>◌}
use omnibioai_api_gateway.Redis.{
  Stored, bucket_text, claim_text, int_text, Claim, parse_int, Commands,
}
use omnibioai_api_gateway.MemoryStore.{second}
use omnibioai_api_gateway.Text.{◌^^◌}

abbrev pub prefix : String
prefix = "gateway:v1:"

-- One token.
abbrev pub token : ℕ
token = 60 * second

-- A bucket: the units in it, and the time of the last call.
abbrev pub Bucket : Type 0
Bucket = ℕ × ℕ

-- The body of the `try` in `hit_rate_limit`, for a limit of at least one.
unfoldable pub refill : ℕ → Bucket → ℕ → ℕ
refill limit (tokens, last) now = min (limit * token) (tokens + (now - last) * limit)

abbrev pub fresh : ℕ → ℕ → Bucket
fresh limit now = (limit * token, now)

-- math.ceil(a / b)
abbrev pub ceil_div : ℕ → ℕ → ℕ
ceil_div a b = (a + b - 1) / b

-- The answer of a call: allowed, remaining, and the seconds until the next token.
abbrev pub Hit : Type 0
Hit = Bool × ℕ × ℕ

unfoldable pub take_token : ℕ → ℕ
take_token tokens = if leb token tokens then tokens - token else tokens

unfoldable pub reset_after : ℕ → ℕ → ℕ
reset_after limit tokens =
    if leb token tokens then 0 else max 1 (ceil_div (token - tokens) (limit * second))

unfoldable pub answer : ℕ → ℕ → Hit
unfolding take_token reset_after
answer limit tokens =
    (leb token tokens, take_token tokens / token, reset_after limit (take_token tokens))

-- `tokens, last = json.loads(raw)`, or a full bucket where there is no record
abbrev pub read_bucket : ℕ → ℕ → Option Stored → Option Bucket
read_bucket limit now none = some (fresh limit now)
read_bucket limit now (some (bucket_text tokens last)) = some (tokens, last)
read_bucket limit now (some _) = none

pub data Begun : Type 0 where
  new in_progress mismatch : Begun
  replay : ℕ → Json → Begun

-- The end of `idempotency_begin`; a text that is no record raises.
abbrev pub compare_claim : String → Option Stored → Option Begun
compare_claim fingerprint none = some in_progress
compare_claim fingerprint (some (claim_text r)) =
    if r.fingerprint == fingerprint
    then elim r.result [ some (status, body) ↦ some (replay status body) | none ↦ some in_progress ]
    else some mismatch
compare_claim fingerprint (some _) = none

abbrev pub is_success : ℕ → Bool
is_success status = leb 200 status && ltb status 300

module _ {S : Type 0} (c : Commands S) where
  unfoldable pub rate_key : String → String
  rate_key subject = prefix ^^ "rltb:" ^^ subject

  hit_bucket : String → ℕ → ℕ → Exec S Hit
  hit_bucket subject limit now = do
    raw ← c.get (rate_key subject)
    bucket ← or_raise (read_bucket limit now raw)
    let tokens = refill limit bucket now
    c.set (rate_key subject) (bucket_text (take_token tokens) now) false (some 120)
    pure (answer limit tokens)

  unfoldable pub hit_rate_limit : String → ℤ → ℕ → Exec S Hit
  unfolding hit_bucket
  hit_rate_limit subject (pos zero) now = pure (false, 0, 60)
  hit_rate_limit subject (negsuc n) now = pure (false, 0, 60)
  hit_rate_limit subject (pos (suc n)) now =
      catch (hit_bucket subject (suc n) now) (pure (true, suc n, 0))

  -- `except Exception: pass`
  abbrev pub quietly : {A : Type 0} → Exec S A → Exec S (Unit {0})
  quietly m = catch (m >> pure tt) (pure tt)

  unfoldable pub concurrency_key : String → String
  concurrency_key subject = prefix ^^ "conc:" ^^ subject

  count_in : String → Exec S (Option ℤ)
  count_in key = catch (do count ← c.incr key; c.expire key 300; pure (some count)) (pure none)

  pub acquire_concurrency_slot : String → ℤ → Exec S Bool
  unfolding count_in concurrency_key
  acquire_concurrency_slot subject limit = do
    counted ← count_in (concurrency_key subject)
    elim counted [
      | none ↦ pure true
      | some count ↦
          if ltb_ℤ limit count
          then (quietly (c.decr (concurrency_key subject)) >> pure false)
          else pure true
    ]

  pub release_concurrency_slot : String → Exec S (Unit {0})
  unfolding concurrency_key
  release_concurrency_slot subject = quietly (c.decr (concurrency_key subject))

  unfoldable pub quota_key : String → String → String
  quota_key org_id resource = prefix ^^ "quota:" ^^ org_id ^^ ":" ^^ resource

  -- get(key), then int(raw); `none` on an error, a missing key or a text that is no number
  read_int : String → Exec S (Option ℤ)
  read_int key =
      catch (do raw ← c.get key; pure (elim raw [ none ↦ none | some v ↦ parse_int v ])) (pure none)

  unfoldable pub rate_limit_for_org : String → Exec S (Option ℤ)
  unfolding read_int
  rate_limit_for_org org_id = read_int (prefix ^^ "quota:" ^^ org_id ^^ ":ratelimit")

  pub quota_remaining : String → String → Exec S (Option ℤ)
  unfolding read_int quota_key
  quota_remaining org_id resource = read_int (quota_key org_id resource)

  -- The `try` of `reserve_quota`: `none` is its early `return True`.
  count_down : String → Exec S (Option ℤ)
  count_down key = do
    raw ← c.get key
    if is_some raw then (do value ← c.decr key; pure (some value)) else pure none

  unfoldable pub reserve_quota : String → String → Exec S Bool
  unfolding count_down
  reserve_quota org_id resource = do
    counted ← catch (count_down (quota_key org_id resource)) (pure none)
    elim counted [
      | none ↦ pure true
      | some value ↦
          if ltb_ℤ value (pos 0)
          then (quietly (c.incr (quota_key org_id resource)) >> pure false)
          else pure true
    ]

  pub release_quota : String → String → Exec S (Unit {0})
  release_quota org_id resource = quietly (do
    raw ← c.get (quota_key org_id resource)
    if is_some raw then (c.incr (quota_key org_id resource) >> pure tt) else pure tt)

  module _ (sha : String → String) (idempotency_ttl : ℕ) where
    unfoldable pub idem_key : String → String → String
    idem_key subject key = prefix ^^ "idem:" ^^ subject ^^ ":" ^^ sha key

    -- The `try` of `idempotency_begin`: `none` is a new claim, `some raw` the record found.
    claim_or_read : String → String → Exec S (Option (Option Stored))
    claim_or_read key fingerprint = do
      claimed ←
          c.set key (claim_text (record { fingerprint = fingerprint; result = none })) true
            (some 120)
      if claimed then pure none else do raw ← c.get key; pure (some raw)

    unfoldable pub idempotency_begin : String → String → String → Exec S Begun
    unfolding claim_or_read
    idempotency_begin subject key fingerprint = do
      found ← catch (claim_or_read (idem_key subject key) fingerprint) (pure none)
      elim found [ none ↦ pure new | some raw ↦ or_raise (compare_claim fingerprint raw) ]

    unfoldable pub idempotency_finish : String → String → String → ℕ → Json → Exec S (Unit {0})
    idempotency_finish subject key fingerprint status body =
        if is_success status
        then quietly (
            c.set (idem_key subject key)
              (claim_text (record { fingerprint = fingerprint; result = some (status, body) }))
              false (some idempotency_ttl))
        else quietly (c.delete (idem_key subject key))
