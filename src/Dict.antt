-- ===== src/Dict.antt =====
-- Python's `dict` with string keys, in insertion order: an assignment to a key that is there
-- keeps its place, a new key goes to the end.
use omnibioai_api_gateway.Prelude.{
  ℕ, zero, suc, ◌+◌, ◌-◌, ◌≤◌, String, ◌≡◌, refl, Option, none, some, List, [], ◌∷◌, arith, ◌==◌,
  eq_iff, if◌then◌else◌, length, take, eq_refl, All, Bool-cases, inl, inr,
}

abbrev pub Dict {ℓ} : Type ℓ → Type ℓ
Dict V = List (String × V)

abbrev pub keys {ℓ} : {V : Type ℓ} → Dict V → List String
keys [] = []
keys ((k, v) ∷ d) = k ∷ keys d

module _ {ℓ} {V : Type ℓ} where
  -- d.get(k)
  unfoldable pub lookup : String → Dict V → Option V
  lookup k [] = none
  lookup k ((j, v) ∷ d) = if j == k then some v else lookup k d

  -- d[k] = v
  unfoldable pub insert : String → V → Dict V → Dict V
  insert k v [] = (k, v) ∷ []
  insert k v ((j, w) ∷ d) = if j == k then (k, v) ∷ d else (j, w) ∷ insert k v d

  -- d.pop(k, None), del d[k]
  unfoldable pub erase : String → Dict V → Dict V
  erase k [] = []
  erase k ((j, w) ∷ d) = let rest = erase k d in if j == k then rest else (j, w) ∷ rest

  -- for k in ks: del d[k]
  unfoldable pub erase_all : List String → Dict V → Dict V
  erase_all [] d = d
  erase_all (k ∷ ks) d = erase_all ks (erase k d)

  -- The keys of a dict are distinct.
  abbrev pub IsDistinct : Dict V → Type ℓ
  IsDistinct [] = Unit
  IsDistinct ((k, v) ∷ d) = (lookup k d ≡ none) × IsDistinct d

  pub lookup-insert :
      (k j : String) (v : V) (d : Dict V)
      → lookup j (insert k v d) ≡ (if k == j then some v else lookup j d)
  unfolding lookup insert
  lookup-insert k j v [] = refl
  lookup-insert k j v ((i, w) ∷ d) =
      ground (arith, eq_iff k j, eq_iff i k, eq_iff i j, lookup-insert k j v d)

  pub lookup-erase :
      (k j : String) (d : Dict V) → lookup j (erase k d) ≡ (if k == j then none else lookup j d)
  unfolding lookup erase
  lookup-erase k j [] = ground arith
  lookup-erase k j ((i, w) ∷ d) =
      ground (arith, lookup-erase k j d, eq_iff i k, eq_iff i j, eq_iff k j)

  pub length-erase-le : (k : String) (d : Dict V) → length (erase k d) ≤ length d
  unfolding erase
  length-erase-le k [] = omega arith
  length-erase-le k ((i, w) ∷ d) = ground (arith, length-erase-le k d)

  pub length-insert-le : (k : String) (v : V) (d : Dict V) → length (insert k v d) ≤ length d + 1
  unfolding insert
  length-insert-le k v [] = omega arith
  length-insert-le k v ((i, w) ∷ d) = ground (arith, length-insert-le k v d)

  pub length-insert_present :
      (k : String) (v w : V) (d : Dict V) → lookup k d ≡ some w → length (insert k v d) ≡ length d
  unfolding insert lookup
  length-insert_present k v w [] h = ground arith
  length-insert_present k v w ((i, u) ∷ d) h = ground (arith, length-insert_present k v w d)

  erase_comm : (j k : String) (d : Dict V) → erase j (erase k d) ≡ erase k (erase j d)
  unfolding erase
  erase_comm j k [] = refl
  erase_comm j k ((i, w) ∷ d) = ground (arith, erase_comm j k d)

  erase_all-erase :
      (ks : List String) (k : String) (d : Dict V)
      → erase_all ks (erase k d) ≡ erase k (erase_all ks d)
  unfolding erase_all
  erase_all-erase [] k d = refl
  erase_all-erase (j ∷ ks) k d = ground (arith, erase_comm j k d, erase_all-erase ks k (erase j d))

  pub length-erase_all-le : (ks : List String) (d : Dict V) → length (erase_all ks d) ≤ length d
  unfolding erase_all
  length-erase_all-le [] d = omega arith
  length-erase_all-le (k ∷ ks) d =
      omega (arith, length-erase_all-le ks (erase k d), length-erase-le k d)

  erase-head : (k : String) (v : V) (d : Dict V) → erase k ((k, v) ∷ d) ≡ erase k d
  unfolding erase
  erase-head k v d = rw (eq_refl k)

  -- Deleting the first `n` keys leaves at most what stands behind them.
  pub length-erase_all-take :
      (n : ℕ) (d : Dict V) → length (erase_all (take n (keys d)) d) ≤ length d - n
  unfolding erase_all
  length-erase_all-take zero d = omega arith
  length-erase_all-take (suc n) [] = omega arith
  length-erase_all-take (suc n) ((k, v) ∷ d) =
      rw (erase-head k v d, erase_all-erase (take n (keys d)) k d)
        (omega
          (arith, length-erase-le k (erase_all (take n (keys d)) d), length-erase_all-take n d))

  pub insert-IsDistinct :
      (k : String) (v : V) (d : Dict V) → IsDistinct d → IsDistinct (insert k v d)
  unfolding insert lookup
  insert-IsDistinct k v [] h = (refl, tt)
  insert-IsDistinct k v ((i, w) ∷ d) h = elim (Bool-cases (i == k)) [
    | inl same ↦ rw same (rw (← (eq_iff i k).0 same) h.0, h.1)
    | inr other ↦ rw other (
      ground (arith, lookup-insert k i v d, eq_iff i k, eq_iff k i, h.0),
      insert-IsDistinct k v d h.1,
    )
  ]

  pub erase-IsDistinct : (k : String) (d : Dict V) → IsDistinct d → IsDistinct (erase k d)
  unfolding erase lookup
  erase-IsDistinct k [] h = tt
  erase-IsDistinct k ((i, w) ∷ d) h = elim (Bool-cases (i == k)) [
    | inl same ↦ rw same (erase-IsDistinct k d h.1)
    | inr other ↦ rw other (ground (arith, lookup-erase k i d, h.0), erase-IsDistinct k d h.1)
  ]

  pub erase_all-IsDistinct :
      (ks : List String) (d : Dict V) → IsDistinct d → IsDistinct (erase_all ks d)
  unfolding erase_all
  erase_all-IsDistinct [] d h = h
  erase_all-IsDistinct (k ∷ ks) d h = erase_all-IsDistinct ks (erase k d) (erase-IsDistinct k d h)

-- A key that is assigned joins the keys that are there.
pub All-insert :
    {V : Type 0} (P : String → Type 0) (k : String) (v : V) (d : Dict V)
    → P k
    → All P (keys d)
    → All P (keys (insert k v d))
unfolding insert
All-insert P k v [] p h = (p, tt)
All-insert P k v ((j, w) ∷ d) p h = elim (Bool-cases (j == k)) [
  | inl same ↦ rw same (p, h.1)
  | inr other ↦ rw other (h.0, All-insert P k v d p h.1)
]
