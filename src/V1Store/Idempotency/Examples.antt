-- ===== src/V1Store/Idempotency/Examples.antt =====
-- Two requests with one key and one body, with their commands interleaved.
use omnibioai_api_gateway.Prelude.{◌≤◌, ◌+◌, refl, inl, inr, Option, some, none, [], ◌∷◌}
use omnibioai_api_gateway.Json.{str}
use omnibioai_api_gateway.Redis.{Stored}
use omnibioai_api_gateway.Interleaving.{System, total, Reach, here, next, move}
use omnibioai_api_gateway.V1Store.{replay}
use omnibioai_api_gateway.V1Store.Idempotency.{claimed, done}
use omnibioai_api_gateway.V1Store.Idempotency.Concurrent.{
  Stage, waiting, missed, running, told, finished, Move, claim, miss, read, succeed, is_running,
  slips, start, Occurs,
}
use omnibioai_api_gateway.V1Store.Idempotency.Concurrent.Sound.{runs-le, told-finished}

-- The second finds the key taken while the first runs.
abbrev one_runs : System (Option Stored) Stage
one_runs = record { value = some (claimed "a"); requests = running "a" ∷ missed "a" ∷ [] }

race : Reach Move (start ("a" ∷ "a" ∷ [])) one_runs
race =
    next (next here (move [] (waiting "a") (running "a") (waiting "a" ∷ []) none _ (claim "a")))
      (move (running "a" ∷ []) (waiting "a") (missed "a") [] _ _ (miss "a" (claimed "a")))

-- It reads the record after the first has ended.
abbrev replayed : System (Option Stored) Stage
replayed = record {
  value = some (done "a" 200 (str "x"));
  requests = finished "a" 200 (str "x") ∷ told "a" (replay 200 (str "x")) ∷ [];
}

ended : Reach Move (start ("a" ∷ "a" ∷ [])) replayed
ended =
    next
      (next race (
        move [] (running "a") (finished "a" 200 (str "x")) (missed "a" ∷ []) _ _
          (succeed "a" (some (claimed "a")) 200 (str "x") refl)))
      (move (finished "a" 200 (str "x") ∷ []) (missed "a") (told "a" (replay 200 (str "x"))) [] _ _
        (read "a" (some (done "a" 200 (str "x"))) (replay 200 (str "x")) refl))

runs-le_example : total is_running (running "a" ∷ missed "a" ∷ []) ≤ 1 + slips race
runs-le_example = runs-le ("a" ∷ "a" ∷ []) {t = one_runs} race

told-finished_example :
    Occurs
      (finished "a" 200 (str "x"))
      (finished "a" 200 (str "x") ∷ told "a" (replay 200 (str "x")) ∷ [])
told-finished_example =
    told-finished ("a" ∷ "a" ∷ []) {t = replayed} ended "a" 200 (str "x")
      (unfold Occurs in inr (inl refl))
