-- ===== src/V1Store/Examples.antt =====
-- The limits, quotas and idempotency records of `V1Store` on concrete stores and schedules.
use omnibioai_api_gateway.Prelude.{
  ◌+◌, ◌*◌, ◌≤◌, ◌≡◌, refl, String, true, false, none, some, List, [], ◌∷◌, arith,
}
use omnibioai_api_gateway.Prelude.Int.{pos, ◌+ℤ◌, ◌-ℤ◌}
use omnibioai_api_gateway.Dict.{lookup}
use omnibioai_api_gateway.Redis.{int_text, bucket_text, Commands}
use omnibioai_api_gateway.Redis.Laws.{update, Runs}
use omnibioai_api_gateway.MemoryStore.{MemoryStore, second}
use omnibioai_api_gateway.MemoryStore.Bounds.{init}
use omnibioai_api_gateway.MemoryStore.View.{view, HasRoom}
use omnibioai_api_gateway.MemoryStore.Commands.{memory_commands, memory_laws}
use omnibioai_api_gateway.V1Store.{
  token, refill, fresh, take_token, answer, rate_key, hit_rate_limit, quota_key, reserve_quota,
  concurrency_key,
}
use omnibioai_api_gateway.V1Store.RateLimit.{Call, allowed_calls, elapsed, allowed_calls-le}
use omnibioai_api_gateway.V1Store.RateLimit.Refinement.{
  hit_rate_limit-refill, hit_rate_limit_fails_open,
}
use omnibioai_api_gateway.V1Store.Quota.{reserve_metered}

-- Two calls at once, and one after the record has expired.
abbrev calls : List Call
calls =
    record { gap = 0; forgotten = false }
    ∷ record { gap = 0; forgotten = false }
    ∷ record { gap = 121 * second; forgotten = true }
    ∷ []

allowed_calls-le_example : allowed_calls 1 (token, 0) calls * token ≤ token + elapsed calls * 1
allowed_calls-le_example =
    allowed_calls-le 1 (token, 0) calls ((λ e. cc), ((λ e. cc), ((λ e. omega arith), tt)))

-- The three calls get an answer each: yes, no, and, as the bucket is full again, yes.
calls_allowed : allowed_calls 1 (token, 0) calls ≡ 2
unfolding allowed_calls answer refill take_token
calls_allowed = refl

hit_rate_limit-refill_example :
    Runs view HasRoom
      (hit_rate_limit memory_commands "user:u1" (pos 60) 9 init)
      (answer 60 (refill 60 (fresh 60 9) 9))
      (update
        (view init)
        (rate_key memory_commands "user:u1")
        (some (bucket_text (take_token (refill 60 (fresh 60 9) 9)) 9)))
      0
unfolding memory_laws view lookup
hit_rate_limit-refill_example =
    hit_rate_limit-refill memory_commands memory_laws "user:u1" 59 9 0 (fresh 60 9) init
      (omega arith) refl

-- Commands that all raise.
abbrev broken : Commands (Unit {0})
broken = record {
  get = λ k s. (none, s);
  set = λ k v nx ex s. (none, s);
  incr = λ k s. (none, s);
  decr = λ k s. (none, s);
  expire = λ k t s. (none, s);
  delete = λ k s. (none, s);
}

hit_rate_limit_fails_open_example :
    (hit_rate_limit broken "user:u1" (pos 60) 9 tt).0 ≡ some (true, 60, 0)
hit_rate_limit_fails_open_example = hit_rate_limit_fails_open broken "user:u1" 59 9 tt refl

-- A store in which an organization has two answers left, and one request in flight.
abbrev two_left : MemoryStore
two_left = record {
  items =
      (
        quota_key memory_commands "org1" "literature.answer",
        record { value = int_text (pos 2); expires = none },
      )
      ∷ (
        concurrency_key memory_commands "user:u1",
        record { value = int_text (pos 1); expires = some (300 * second) },
      )
      ∷ [];
  now = 0;
}

reserve_metered_example :
    Runs view HasRoom
      (reserve_quota memory_commands "org1" "literature.answer" two_left)
      true
      (update
        (view two_left)
        (quota_key memory_commands "org1" "literature.answer")
        (some (int_text (pos 1))))
      0
unfolding memory_laws view lookup quota_key concurrency_key ◌+ℤ◌ ◌-ℤ◌
reserve_metered_example =
    reserve_metered memory_commands memory_laws "org1" "literature.answer" (pos 2) 0 two_left
      (omega arith) refl

-- A stand-in for SHA-256.
abbrev same : String → String
same s = s
