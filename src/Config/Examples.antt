-- ===== src/Config/Examples.antt =====
-- An answer stored with the longest time that the settings allow, read a day later.
use omnibioai_api_gateway.Prelude.{◌≡◌, ◌≤◌, ◌*◌, some, [], refl, arith}
use omnibioai_api_gateway.Prelude.Int.{ℤ, pos}
use omnibioai_api_gateway.Json.{str}
use omnibioai_api_gateway.MemoryStore.{MemoryStore, second}
use omnibioai_api_gateway.MemoryStore.Expiry.{wait}
use omnibioai_api_gateway.V1Store.{replay}
use omnibioai_api_gateway.Config.{thirty_days, idempotency_ttl}
use omnibioai_api_gateway.Config.Retention.{begin, finish, finish-kept}

abbrev empty : MemoryStore
empty = record { items = []; now = 0 }

abbrev sixty_days : ℤ
sixty_days = pos (2 * thirty_days)

sixty_days-ttl : idempotency_ttl (some sixty_days) ≡ pos thirty_days
unfolding idempotency_ttl
sixty_days-ttl = refl

finish-kept_example :
    ((begin
        (λ s. s)
        thirty_days
        "org1"
        "k"
        "a"
        (wait
          (86_400 * second)
          (finish (λ s. s) thirty_days "org1" "k" "a" 200 (str "x") empty).1)).0
      ≡ some (replay 200 (str "x")))
    × (thirty_days ≤ thirty_days)
finish-kept_example =
    finish-kept (λ s. s) (some sixty_days) thirty_days (86_400 * second) "org1" "k" "a" "a" 200
      (str "x") empty sixty_days-ttl refl (omega arith)
