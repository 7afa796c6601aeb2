-- ===== src/Exec/Keeps.antt =====
-- Facts about the state that code keeps, whether it raises or not.
use omnibioai_api_gateway.Prelude.{◌≡◌, inl, inr, Option, none, some, Option-cases}
use omnibioai_api_gateway.Exec.{Exec, pure, catch, ◌>>=◌}

module _ {S : Type 0} (P : S → Type 0) where
  abbrev pub Keeps : {A : Type 0} → Exec S A → Type 0
  Keeps m = (s : S) → P s → P (m s).1

  pub pure-Keeps : {A : Type 0} (a : A) → Keeps (pure a)
  pure-Keeps a s h = h

  -- The rest of a block runs where its first command ended.
  pub bind-after :
      {A B : Type 0} (m : Exec S A) (f : A → Exec S B) (s : S)
      → P (m s).1
      → ((a : A) → Keeps (f a))
      → P ((m >>= f) s).1
  bind-after m f s h rest = elim (Option-cases (m s).0) [
    | inl raised ↦ rw raised h
    | inr (a, done) ↦ rw done (rest a (m s).1 h)
  ]

  pub catch-after : {A : Type 0} (m h : Exec S A) (s : S) → P (m s).1 → Keeps h → P (catch m h s).1
  catch-after m h s ran handler = elim (Option-cases (m s).0) [
    | inl raised ↦ rw raised (handler (m s).1 ran)
    | inr (a, done) ↦ rw done ran
  ]

  pub bind-Keeps :
      {A B : Type 0} (m : Exec S A) (f : A → Exec S B)
      → Keeps m
      → ((a : A) → Keeps (f a))
      → Keeps (m >>= f)
  bind-Keeps m f first rest s h = bind-after m f s (first s h) rest

  pub catch-Keeps : {A : Type 0} (m h : Exec S A) → Keeps m → Keeps h → Keeps (catch m h)
  catch-Keeps m h body handler s p = catch-after m h s (body s p) handler

  -- How a block may end, by what its first command has left.
  pub after-Ends :
      {A B : Type 0} (E : Option B × S → Type 0) (m : Exec S A) (f : A → Exec S B) (s : S)
      → P (m s).1
      → ((t : S) → P t → E (none, t))
      → ((a : A) (t : S) → P t → E (f a t))
      → E ((m >>= f) s)
  after-Ends E m f s left raises ends = elim (Option-cases (m s).0) [
    | inl raised ↦ rw raised (raises (m s).1 left)
    | inr (a, done) ↦ rw done (ends a (m s).1 left)
  ]

  pub bind-Ends :
      {A B : Type 0} (E : Option B × S → Type 0) (m : Exec S A) (f : A → Exec S B) (s : S)
      → P s
      → Keeps m
      → ((t : S) → P t → E (none, t))
      → ((a : A) (t : S) → P t → E (f a t))
      → E ((m >>= f) s)
  bind-Ends E m f s h kept raises ends = after-Ends E m f s (kept s h) raises ends

module _ {S : Type 0} where
  pub catch-done : (m : Exec S Unit) (s : S) → (catch m (pure tt) s).0 ≡ some tt
  catch-done m s = elim (Option-cases (m s).0) [ inl raised ↦ rw raised | inr (tt, done) ↦ rw done ]

  pub catch-state : (m : Exec S Unit) (s : S) → (catch m (pure tt) s).1 ≡ (m s).1
  catch-state m s = elim (Option-cases (m s).0) [
    | inl raised ↦ rw raised
    | inr (tt, done) ↦ rw done
  ]
