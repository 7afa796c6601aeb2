-- ===== src/Exec.antt =====
-- Code that changes a state and may raise. The state comes back beside an exception too, since
-- what was written stays written. The handlers modelled catch every `Exception` alike, so an
-- exception carries nothing.
pub mod Keeps
use omnibioai_api_gateway.Prelude.{Option, none, some}

abbrev pub Exec : Type 0 → Type 0 → Type 0
Exec S A = S → Option A × S

module _ {S A : Type 0} where
  abbrev pub pure : A → Exec S A
  pure a s = (some a, s)

  abbrev pub raise : Exec S A
  raise s = (none, s)

  abbrev pub or_raise : Option A → Exec S A
  or_raise o s = (o, s)

  abbrev handle_with : Option A → Exec S A → Exec S A
  handle_with none h s = h s
  handle_with (some a) h s = (some a, s)

  -- try: m  except Exception: h
  abbrev pub catch : Exec S A → Exec S A → Exec S A
  catch m h s = let (r, s') = m s in handle_with r h s'

module _ {S A B : Type 0} where
  abbrev continue : Option A → (A → Exec S B) → Exec S B
  continue none f s = (none, s)
  continue (some a) f s = f a s

  infixl 10 ◌>>=◌ ◌>>◌
  abbrev pub ◌>>=◌ : Exec S A → (A → Exec S B) → Exec S B
  ◌>>=◌ m f s = let (r, s') = m s in continue r f s'

  abbrev pub ◌>>◌ : Exec S A → Exec S B → Exec S B
  m >> n = m >>= λ _. n
