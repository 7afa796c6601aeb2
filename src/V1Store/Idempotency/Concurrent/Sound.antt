-- ===== src/V1Store/Idempotency/Concurrent/Sound.antt =====
-- Requests with one Idempotency-Key at the same time: at most one runs, and what is replayed has been run to.
use omnibioai_api_gateway.Prelude.{
  ℕ, ◌+◌, ◌≤◌, ◌≡◌, refl, sym, ap, ◌∙◌, ◌⊎◌, inl, inr, Option, none, some, List, [], ◌∷◌, ◌++◌,
  String, arith, map,
}
use omnibioai_api_gateway.Json.{Json}
use omnibioai_api_gateway.Redis.{Stored, claim_text}
use omnibioai_api_gateway.Interleaving.{
  System, total, total-append_cons, Step, move, Reach, Reach-keeps, here, next, costs,
}
use omnibioai_api_gateway.V1Store.{Begun, replay, compare_claim}
use omnibioai_api_gateway.V1Store.Idempotency.{done}
use omnibioai_api_gateway.V1Store.Idempotency.Concurrent.{
  Stage, waiting, missed, running, failed, told, finished, Move, claim, miss, read, succeed, fail,
  expire, claim_fails, read_fails, succeed_fails, fail_fails, lapse, slips, is_running, start,
  claims, claims_le, Move-counts, compare_claim-replay, Occurs, Occurs-here, Occurs-move,
}

-- A result that is stored or was replayed is that of a request that has run.
record IsSound (t : System (Option Stored) Stage) : Type 0 where
  stored :
      (f : String) (status : ℕ) (body : Json)
      → t.value ≡ some (done f status body)
      → Occurs (finished f status body) t.requests
  replayed :
      (f : String) (status : ℕ) (body : Json)
      → Occurs (told f (replay status body)) t.requests
      → Occurs (finished f status body) t.requests

-- A move away from a stage that is not an end.
abbrev finished_of : Stage → Option (String × ℕ × Json)
finished_of (finished f status body) = some (f, status, body)
finished_of _ = none

abbrev begun_of : Stage → Option Begun
begun_of (told f b) = some b
begun_of _ = none

abbrev fingerprint_of : Stage → String
fingerprint_of (told f b) = f
fingerprint_of _ = ""

-- The end that a stored record is of.
abbrev end_with : String → Option (ℕ × Json) → Stage
end_with f none = failed f
end_with f (some (status, body)) = finished f status body

abbrev end_of : Option Stored → Stage
end_of (some (claim_text r)) = end_with r.fingerprint r.result
end_of _ = failed ""

module _ (before after : List Stage) where
  -- A result stays when a request moves that has none, or that stays.
  keeps_finished :
      (p q : Stage) (f : String) (status : ℕ) (body : Json)
      → (finished_of p ≡ none) ⊎ (q ≡ p)
      → Occurs (finished f status body) (before ++ p ∷ after)
      → Occurs (finished f status body) (before ++ q ∷ after)
  keeps_finished p q f status body (inr same) h = rw same h
  keeps_finished p q f status body (inl no_end) h =
      elim (Occurs-move (finished f status body) p q before after h) [
        | inl is_it ↦ cc (ap finished_of is_it)
        | inr there ↦ there
      ]

Move-source :
    (p q : Stage) (v v' : Option Stored) → Move p v q v' → (finished_of p ≡ none) ⊎ (q ≡ p)
Move-source _ _ _ _ (claim f) = inl refl
Move-source _ _ _ _ (claim_fails f v v' e) = inl refl
Move-source _ _ _ _ (read_fails f v) = inl refl
Move-source _ _ _ _ (succeed_fails f v status body good) = inl refl
Move-source _ _ _ _ (fail_fails f v) = inl refl
Move-source _ _ _ _ (lapse p f) = inr refl
Move-source _ _ _ _ (miss f w) = inl refl
Move-source _ _ _ _ (read f v b e) = inl refl
Move-source _ _ _ _ (succeed f v status body good) = inl refl
Move-source _ _ _ _ (fail f v status bad) = inl refl
Move-source _ _ _ _ (expire p f status body) = inr refl

module _ (before after : List Stage) where
  Move-stored :
      (p q : Stage) (v v' : Option Stored)
      → Move p v q v'
      → IsSound (record { value = v; requests = before ++ p ∷ after })
      → (f : String) (status : ℕ) (body : Json) → v' ≡ some (done f status body)
      → Occurs (finished f status body) (before ++ q ∷ after)
  Move-stored _ _ _ _ (claim g) h f status body e = cc (ap end_of e)
  Move-stored _ _ _ _ (claim_fails g v v' (inl same)) h f status body e =
      keeps_finished before after (waiting g) (running g) f status body (inl refl)
        (h.stored f status body (sym same ∙ e))
  Move-stored _ _ _ _ (claim_fails g v v' (inr (_, now))) h f status body e =
      cc (ap end_of (sym now ∙ e))
  Move-stored _ _ _ _ (read_fails g v) h f status body e =
      keeps_finished before after (missed g) (running g) f status body (inl refl)
        (h.stored f status body e)
  Move-stored _ _ _ _ (succeed_fails g v s b good) h f status body e =
      keeps_finished before after (running g) (finished g s b) f status body (inl refl)
        (h.stored f status body e)
  Move-stored _ _ _ _ (fail_fails g v) h f status body e =
      keeps_finished before after (running g) (failed g) f status body (inl refl)
        (h.stored f status body e)
  Move-stored _ _ _ _ (lapse p g) h f status body e = cc
  Move-stored _ _ _ _ (miss g w) h f status body e =
      keeps_finished before after (waiting g) (missed g) f status body (inl refl)
        (h.stored f status body e)
  Move-stored _ _ _ _ (read g v b c) h f status body e =
      keeps_finished before after (missed g) (told g b) f status body (inl refl)
        (h.stored f status body e)
  Move-stored _ _ _ _ (succeed g v s b good) h f status body e =
      rw (ap end_of e) (Occurs-here (finished f status body) before after)
  Move-stored _ _ _ _ (fail g v s bad) h f status body e = cc
  Move-stored _ _ _ _ (expire p g s b) h f status body e = cc

  -- A replay that was told before, or that is told by this move.
  told_before :
      (p q : Stage) (v : Option Stored) (f : String) (status : ℕ) (body : Json)
      → IsSound (record { value = v; requests = before ++ p ∷ after })
      → finished_of p ≡ none
      → begun_of q ≡ none
      → Occurs (told f (replay status body)) (before ++ q ∷ after)
      → Occurs (finished f status body) (before ++ q ∷ after)
  told_before p q v f status body h no_end untold there =
      elim (Occurs-move (told f (replay status body)) q p before after there) [
        | inl is_it ↦ cc (ap begun_of is_it)
        | inr earlier ↦
            keeps_finished before after p q f status body (inl no_end)
              (h.replayed f status body earlier)
      ]

  Move-replayed :
      (p q : Stage) (v v' : Option Stored)
      → Move p v q v'
      → IsSound (record { value = v; requests = before ++ p ∷ after })
      → (f : String) (status : ℕ) (body : Json)
      → Occurs (told f (replay status body)) (before ++ q ∷ after)
      → Occurs (finished f status body) (before ++ q ∷ after)
  Move-replayed _ _ _ _ (claim g) h f status body there =
      told_before (waiting g) (running g) none f status body h refl refl there
  Move-replayed _ _ _ _ (claim_fails g v v' e) h f status body there =
      told_before (waiting g) (running g) v f status body h refl refl there
  Move-replayed _ _ _ _ (read_fails g v) h f status body there =
      told_before (missed g) (running g) v f status body h refl refl there
  Move-replayed _ _ _ _ (succeed_fails g v s b good) h f status body there =
      told_before (running g) (finished g s b) v f status body h refl refl there
  Move-replayed _ _ _ _ (fail_fails g v) h f status body there =
      told_before (running g) (failed g) v f status body h refl refl there
  Move-replayed _ _ _ _ (lapse p g) h f status body there = h.replayed f status body there
  Move-replayed _ _ _ _ (miss g w) h f status body there =
      told_before (waiting g) (missed g) (some w) f status body h refl refl there
  Move-replayed _ _ _ _ (succeed g v s b good) h f status body there =
      told_before (running g) (finished g s b) v f status body h refl refl there
  Move-replayed _ _ _ _ (fail g v s bad) h f status body there =
      told_before (running g) (failed g) v f status body h refl refl there
  Move-replayed _ _ _ _ (expire p g s b) h f status body there = h.replayed f status body there
  Move-replayed _ _ _ _ (read g v b c) h f status body there =
      elim (Occurs-move (told f (replay status body)) (told g b) (missed g) before after there) [
        | inr earlier ↦
            keeps_finished before after (missed g) (told g b) f status body (inl refl)
              (h.replayed f status body earlier)
        | inl is_it ↦
            let same : g ≡ f = ap fingerprint_of is_it in
            let what : some b ≡ some (replay status body) = ap begun_of is_it in
            keeps_finished before after (missed g) (told g b) f status body (inl refl) (
              h.stored f status body (
                compare_claim-replay f v status body
                  (ap (λ x. compare_claim x v) (sym same) ∙ c ∙ what)))
      ]

Step-IsSound : (s t : System (Option Stored) Stage) → Step Move s t → IsSound s → IsSound t
Step-IsSound _ _ (move before p q after v v' m) h = record {
  stored = Move-stored before after p q v v' m h;
  replayed = Move-replayed before after p q v v' m h;
}

total-waiting : (fs : List String) → total is_running (map waiting fs) ≡ 0
unfolding total
total-waiting [] = refl
total-waiting (f ∷ fs) = omega (arith, total-waiting fs)

untold : (fs : List String) (f : String) (b : Begun) → ¬ Occurs (told f b) (map waiting fs)
unfolding Occurs
untold [] f b h = h
untold (g ∷ fs) f b (inl e) = cc
untold (g ∷ fs) f b (inr h) = untold fs f b h

start-IsSound : (fs : List String) → IsSound (start fs)
start-IsSound fs = record {
  stored = λ f status body e. cc;
  replayed = λ f status body h. elim (untold fs f (replay status body) h) [ ];
}

module _ (fs : List String) {t : System (Option Stored) Stage} (r : Reach Move (start fs) t) where
  sound : IsSound t
  sound = Reach-keeps Move IsSound Step-IsSound (start-IsSound fs) r

  -- However they interleave, a result that was replayed to a request is one that a request with the same
  -- fingerprint has run to.
  pub told-finished :
      (f : String) (status : ℕ) (body : Json)
      → Occurs (told f (replay status body)) t.requests
      → Occurs (finished f status body) t.requests
  told-finished f status body h = sound.replayed f status body h

running_bound :
    (fs : List String) {t : System (Option Stored) Stage} (r : Reach Move (start fs) t)
    → total is_running t.requests ≤ claims t.value + slips r
unfolding costs
running_bound fs here = omega (arith, total-waiting fs)
running_bound fs (next r (move before p q after v v' m)) =
    let rest = total is_running before + total is_running after in
    let h : rest + is_running p ≤ claims v + slips r =
      omega (arith, running_bound fs r, total-append_cons is_running before p after) in
    omega
      (arith, Move-counts p q v v' rest (slips r) m h, total-append_cons is_running before q after)

-- However the commands of the requests with a key interleave, with whatever bodies, whichever of them raise, and
-- whenever what is stored expires, at most one of the requests runs at any time, beside one for each
-- command that raised and so let a request run, and one for each claim in progress that expired.
pub runs-le :
    (fs : List String) {t : System (Option Stored) Stage} (r : Reach Move (start fs) t)
    → total is_running t.requests ≤ 1 + slips r
runs-le fs {t} r = omega (arith, running_bound fs r, claims_le t.value)
