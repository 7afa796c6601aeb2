-- ===== src/Interleaving.antt =====
-- Requests that run at the same time, as interleaved moves over one shared value: a move is one
-- atomic Redis command of one request.
use omnibioai_api_gateway.Prelude.{
  ℕ, zero, suc, replicate, ◌+◌, ◌≤◌, ◌≡◌, refl, List, [], ◌∷◌, ◌++◌, arith,
}

pub record System (V P : Type 0) : Type 0 where
  pub value : V
  pub requests : List P

unfoldable pub total : {P : Type 0} → (P → ℕ) → List P → ℕ
total w [] = 0
total w (p ∷ ps) = w p + total w ps

pub total-append_cons :
    {P : Type 0} (w : P → ℕ) (ps : List P) (p : P) (qs : List P)
    → total w (ps ++ p ∷ qs) ≡ total w ps + w p + total w qs
unfolding total
total-append_cons w [] p qs = omega arith
total-append_cons w (x ∷ ps) p qs = omega (arith, total-append_cons w ps p qs)

pub total-le :
    {P : Type 0} (w u : P → ℕ) → ((p : P) → w p ≤ u p) → (ps : List P) → total w ps ≤ total u ps
unfolding total
total-le w u h [] = omega arith
total-le w u h (p ∷ ps) = omega (arith, h p, total-le w u h ps)

pub total-replicate :
    {P : Type 0} (w : P → ℕ) (p : P) → w p ≡ 0 → (n : ℕ) → total w (replicate n p) ≡ 0
unfolding total
total-replicate w p e zero = refl
total-replicate w p e (suc n) = omega (arith, e, total-replicate w p e n)

module _ {V P : Type 0} (Move : P → V → P → V → Type 0) where
  -- One request moves, the others stay where they are.
  pub data Step : System V P → System V P → Type 0 where
    move :
        (before : List P) (p q : P) (after : List P) (v v' : V)
        → Move p v q v'
        → Step
            (record { value = v; requests = before ++ p ∷ after })
            (record { value = v'; requests = before ++ q ∷ after })

  pub data Reach (s : System V P) : System V P → Type 0 where
    here : Reach s s
    next : {t t' : System V P} → Reach s t → Step t t' → Reach s t'

  -- What the moves of a run cost together.
  module _ (cost : (p : P) (v : V) (q : P) (v' : V) → Move p v q v' → ℕ) where
    unfoldable pub costs : {s t : System V P} → Reach s t → ℕ
    costs here = 0
    costs (next r (move before p q after v v' m)) = costs r + cost p v q v' m

  module _ (Good : System V P → Type 0)
      (kept : (s t : System V P) → Step s t → Good s → Good t) where
    pub Reach-keeps : {s t : System V P} → Good s → Reach s t → Good t
    Reach-keeps h here = h
    Reach-keeps h (next {t} {t'} r st) = kept t t' st (Reach-keeps h r)
