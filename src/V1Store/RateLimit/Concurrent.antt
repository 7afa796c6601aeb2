-- ===== src/V1Store/RateLimit/Concurrent.antt =====
-- Calls of `hit_rate_limit` for one subject at the same time: the GET and the SET of a call are two
-- commands, and other calls may run between them.
use omnibioai_api_gateway.Prelude.{ℕ, ◌≡◌, Bool, true, Option, none, some, List, replicate}
use omnibioai_api_gateway.Redis.{Stored, bucket_text}
use omnibioai_api_gateway.Interleaving.{System}
use omnibioai_api_gateway.V1Store.{Bucket, refill, take_token, answer, read_bucket}

-- Where a call stands: before its GET, between its GET and its SET, and with its answer.
pub data Stage : Type 0 where
  waiting : Stage
  holding : Bucket → Stage
  answered : Bool → Stage

module _ (limit now : ℕ) where
  -- What a call writes back.
  abbrev pub written : Bucket → Option Stored
  written b = some (bucket_text (take_token (refill limit b now)) now)

  pub data Move : Stage → Option Stored → Stage → Option Stored → Type 0 where
    read :
        (v : Option Stored) (b : Bucket)
        → read_bucket limit now v ≡ some b
        → Move waiting v (holding b) v
    write :
        (b : Bucket) (v : Option Stored)
        → Move (holding b) v (answered (answer limit (refill limit b now)).0) (written b)
    -- A command that raises lets the call through; the record may expire.
    read_fails : (v : Option Stored) → Move waiting v (answered true) v
    write_fails : (b : Bucket) (v : Option Stored) → Move (holding b) v (answered true) v
    forget : (p : Stage) (v : Option Stored) → Move p v p none

  -- `n` calls that arrive while the record is `b`.
  abbrev pub start : Bucket → ℕ → System (Option Stored) Stage
  start (tokens, last) n = record {
    value = some (bucket_text tokens last);
    requests = replicate n waiting;
  }
