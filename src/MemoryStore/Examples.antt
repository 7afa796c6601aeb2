-- ===== src/MemoryStore/Examples.antt =====
-- Commands on a concrete store.
use omnibioai_api_gateway.Prelude.{List, [], ◌∷◌, true, some, arith}
use omnibioai_api_gateway.Prelude.Int.{pos}
use omnibioai_api_gateway.Redis.{int_text}
use omnibioai_api_gateway.MemoryStore.Bounds.{
  IsValid, Command, set_of, incr_of, expire_of, wait_for, get_of, run_all, init, run_all-IsValid,
}

abbrev commands : List Command
commands =
    incr_of "a"
    ∷ expire_of "a" 300
    ∷ set_of "b" (int_text (pos 7)) true (some 120)
    ∷ wait_for 500_000_000
    ∷ get_of "a"
    ∷ []

run_all-IsValid_example : IsValid (run_all commands init)
run_all-IsValid_example =
    run_all-IsValid commands init (record { bounded = omega arith; distinct = tt })
