-- ===== src/V1Store/Idempotency/Concurrent.antt =====
-- Requests with one Idempotency-Key at the same time: `idempotency_begin`, the run of a request, and
-- `idempotency_finish`. Each Redis command is atomic; between the commands of one request others may
-- run. A command may raise, before or after it took effect: `idempotency_begin` then answers `new`. What is
-- stored may expire at any time, a claim in progress as well.
pub mod Sound
use mathlib.Core.Path.{ap₂}
use mathlib.Core.Option.{some-injective}
use omnibioai_api_gateway.Prelude.{
  ℕ, zero, suc, ◌+◌, ◌≤◌, ◌≡◌, refl, sym, ap, ◌∙◌, ◌⊎◌, inl, inr, Bool, true, false, Option, none,
  some, List, [], ◌∷◌, ◌++◌, String, arith, replicate, map, ◌==◌, eq_iff, if◌then◌else◌, Bool-cases,
  Option-cases,
}
use omnibioai_api_gateway.Json.{Json}
use omnibioai_api_gateway.Redis.{Stored, claim_text, int_text, bucket_text, other_text, Claim}
use omnibioai_api_gateway.Interleaving.{
  System, total, total-append_cons, Step, move, Reach, here, next, costs,
}
use omnibioai_api_gateway.V1Store.{
  Begun, new, in_progress, mismatch, replay, compare_claim, is_success,
}
use omnibioai_api_gateway.V1Store.Idempotency.{claimed, done}

-- Where a request with a fingerprint stands: before its SET, between its SET and its GET, told by a
-- record, running, and at the end with a result that was stored or a failure.
pub data Stage : Type 0 where
  waiting missed running failed : String → Stage
  told : String → Begun → Stage
  finished : String → ℕ → Json → Stage

pub data Move : Stage → Option Stored → Stage → Option Stored → Type 0 where
  claim : (f : String) → Move (waiting f) none (running f) (some (claimed f))
  claim_fails :
      (f : String) (v v' : Option Stored)
      → (v' ≡ v) ⊎ (v ≡ none) × (v' ≡ some (claimed f))
      → Move (waiting f) v (running f) v'
  miss : (f : String) (w : Stored) → Move (waiting f) (some w) (missed f) (some w)
  read :
      (f : String) (v : Option Stored) (b : Begun)
      → compare_claim f v ≡ some b
      → Move (missed f) v (told f b) v
  read_fails : (f : String) (v : Option Stored) → Move (missed f) v (running f) v
  succeed :
      (f : String) (v : Option Stored) (status : ℕ) (body : Json)
      → is_success status ≡ true
      → Move (running f) v (finished f status body) (some (done f status body))
  succeed_fails :
      (f : String) (v : Option Stored) (status : ℕ) (body : Json)
      → is_success status ≡ true
      → Move (running f) v (finished f status body) v
  fail :
      (f : String) (v : Option Stored) (status : ℕ)
      → is_success status ≡ false
      → Move (running f) v (failed f) none
  fail_fails : (f : String) (v : Option Stored) → Move (running f) v (failed f) v
  expire :
      (p : Stage) (f : String) (status : ℕ) (body : Json)
      → Move p (some (done f status body)) p none
  lapse : (p : Stage) (f : String) → Move p (some (claimed f)) p none

-- A request that runs because a command raised, and a claim in progress that expires.
abbrev pub slip :
    (p : Stage) (v : Option Stored) (q : Stage) (v' : Option Stored) → Move p v q v' → ℕ
slip _ _ _ _ (claim_fails f v v' e) = 1
slip _ _ _ _ (read_fails f v) = 1
slip _ _ _ _ (lapse p f) = 1
slip _ _ _ _ _ = 0

abbrev pub slips : {s t : System (Option Stored) Stage} → Reach Move s t → ℕ
slips r = costs Move slip r

abbrev pub is_running : Stage → ℕ
is_running (running f) = 1
is_running _ = 0

-- Requests that arrive, by their fingerprints, while the key is free.
abbrev pub start : List String → System (Option Stored) Stage
start fs = record { value = none; requests = map waiting fs }

-- How many requests the value says to be running.
abbrev claims_of : Option (ℕ × Json) → ℕ
claims_of none = 1
claims_of (some r) = 0

abbrev claims : Option Stored → ℕ
claims (some (claim_text r)) = claims_of r.result
claims _ = 0

claims_le : (v : Option Stored) → claims v ≤ 1
claims_le none = omega arith
claims_le (some (int_text n)) = omega arith
claims_le (some (bucket_text a b)) = omega arith
claims_le (some (other_text s)) = omega arith
claims_le (some (claim_text r)) = elim (Option-cases r.result) [
  | inl none_yet ↦ rw none_yet (omega arith)
  | inr (x, there) ↦ rw there (omega arith)
]

-- A move keeps those that run within the claims and the slips.
Move-counts :
    (p q : Stage) (v v' : Option Stored) (a n : ℕ) (m : Move p v q v')
    → a + is_running p ≤ claims v + n
    → a + is_running q ≤ claims v' + (n + slip p v q v' m)
Move-counts _ _ _ _ a n (claim f) h = omega (arith, h)
Move-counts _ _ _ _ a n (claim_fails f v v' (inl e)) h = rw e (omega (arith, h))
Move-counts _ _ _ _ a n (claim_fails f v v' (inr (_, e))) h = rw e (omega (arith, h, claims_le v))
Move-counts _ _ _ _ a n (miss f w) h = omega (arith, h)
Move-counts _ _ _ _ a n (read f v b e) h = omega (arith, h)
Move-counts _ _ _ _ a n (read_fails f v) h = omega (arith, h)
Move-counts _ _ _ _ a n (succeed f v status body good) h = omega (arith, h, claims_le v)
Move-counts _ _ _ _ a n (succeed_fails f v status body good) h = omega (arith, h)
Move-counts _ _ _ _ a n (fail f v status bad) h = omega (arith, h, claims_le v)
Move-counts _ _ _ _ a n (fail_fails f v) h = omega (arith, h)
Move-counts _ _ _ _ a n (expire p f status body) h = omega (arith, h)
Move-counts _ _ _ _ a n (lapse p f) h = omega (arith, h)

abbrev replay_of : Option Begun → Option (ℕ × Json)
replay_of (some (replay status body)) = some (status, body)
replay_of _ = none

-- A replay tells what is stored.
compare_claim-replay :
    (f : String) (v : Option Stored) (status : ℕ) (body : Json)
    → compare_claim f v ≡ some (replay status body)
    → v ≡ some (done f status body)
compare_claim-replay f none status body h = cc (ap replay_of h)
compare_claim-replay f (some (int_text n)) status body h = cc
compare_claim-replay f (some (bucket_text a b)) status body h = cc
compare_claim-replay f (some (other_text s)) status body h = cc
compare_claim-replay f (some (claim_text r)) status body h =
    elim (Bool-cases (r.fingerprint == f)) [
      | inr other ↦ cc (ap replay_of (rw other at h))
      | inl same ↦ elim (Option-cases r.result) [
        | inl unfinished ↦ cc (ap replay_of (rw (same, unfinished) at h))
        | inr (x, there) ↦
            ap₂ (λ a b. some (claim_text (record { fingerprint = a; result = b })))
              ((eq_iff r.fingerprint f).0 same) (there ∙ ap replay_of (rw (same, there) at h))
      ]
    ]

-- A request stands somewhere.
unfoldable pub Occurs : Stage → List Stage → Type 0
Occurs x [] = ⊥
Occurs x (p ∷ ps) = (p ≡ x) ⊎ Occurs x ps

Occurs-here : (x : Stage) (before after : List Stage) → Occurs x (before ++ x ∷ after)
unfolding Occurs
Occurs-here x [] after = inl refl
Occurs-here x (p ∷ before) after = inr (Occurs-here x before after)

-- What stands among the requests, stands there when another has moved, or is the one that moves.
Occurs-move :
    (x p q : Stage) (before after : List Stage)
    → Occurs x (before ++ p ∷ after)
    → (p ≡ x) ⊎ Occurs x (before ++ q ∷ after)
unfolding Occurs
Occurs-move x p q [] after (inl same) = inl same
Occurs-move x p q [] after (inr later) = inr (inr later)
Occurs-move x p q (y ∷ before) after (inl same) = inr (inl same)
Occurs-move x p q (y ∷ before) after (inr h) = elim (Occurs-move x p q before after h) [
  | inl same ↦ inl same
  | inr there ↦ inr (inr there)
]
