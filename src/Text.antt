-- ===== src/Text.antt =====
-- The string methods of Python that the code uses, over code points.
use Prim.Native.Char.{Char, code}
use Prim.Native.String
use Prim.Native.String.{String}
use text.Mathlib.TextEquality.{Char-path}
use text.Mathlib.TextLemmas.{nil-append, cons-append, append_cancel_left}
use mathlib.Core.Path.{ap₂}
use omnibioai_api_gateway.Prelude.{
  ℕ, ◌≡◌, ap, ◌∙◌, Bool, true, false, ◌&&◌, ◌||◌, Option, none, some, List, [], ◌∷◌, if◌then◌else◌,
  eqb, leb, ◌==◌, is_some, arith, Bool-cases, Option-cases, eq_iff, inl, inr,
}

-- Where `s` starts with `p`, what follows.
unfoldable pub after_prefix : String → String → Option String
after_prefix String.[] s = some s
after_prefix (String.◌∷◌ c p) String.[] = none
after_prefix (String.◌∷◌ c p) (String.◌∷◌ d s) =
    let rest = after_prefix p s in if eqb (code c) (code d) then rest else none

-- s.startswith(p)
unfoldable pub begins_with : String → String → Bool
unfolding after_prefix
begins_with s p = is_some (after_prefix p s)

-- s.removeprefix(p)
unfoldable pub removeprefix : String → String → String
unfolding after_prefix
removeprefix s p = elim (after_prefix p s) [ none ↦ s | some rest ↦ rest ]

-- The characters that `str.strip()` takes off.
abbrev pub is_space : ℕ → Bool
is_space c =
    (leb 9 c && leb c 13)
    || (leb 28 c && leb c 32)
    || eqb c 133
    || eqb c 160
    || eqb c 5760
    || (leb 8192 c && leb c 8202)
    || eqb c 8232
    || eqb c 8233
    || eqb c 8239
    || eqb c 8287
    || eqb c 12288

abbrev pub is_slash : ℕ → Bool
is_slash c = eqb c b'/'

module _ (p : ℕ → Bool) where
  -- s.lstrip(chars), s.rstrip(chars), s.strip(chars), by a test on a character
  unfoldable pub lstrip : String → String
  lstrip String.[] = ""
  lstrip (String.◌∷◌ c s) = let rest = lstrip s in if p (code c) then rest else String.◌∷◌ c s

  unfoldable pub rstrip : String → String
  rstrip String.[] = ""
  rstrip (String.◌∷◌ c s) =
      let rest = rstrip s in if p (code c) && rest == "" then "" else String.◌∷◌ c rest

  unfoldable pub strip : String → String
  unfolding lstrip rstrip
  strip s = rstrip (lstrip s)

abbrev pub prepend : Char → List String → List String
prepend c [] = String.◌∷◌ c "" ∷ []
prepend c (p ∷ ps) = String.◌∷◌ c p ∷ ps

-- s.split("/")
unfoldable pub split_slash : String → List String
split_slash String.[] = "" ∷ []
split_slash (String.◌∷◌ c s) =
    let rest = split_slash s in if is_slash (code c) then "" ∷ rest else prepend c rest

-- The character that stands in `into` where `c` stands in `from`.
translate : String → String → Char → Char
translate String.[] into c = c
translate (String.◌∷◌ u from) String.[] c = c
translate (String.◌∷◌ u from) (String.◌∷◌ l into) c =
    let rest = translate from into c in if eqb (code u) (code c) then l else rest

unfoldable pub map_chars : (Char → Char) → String → String
map_chars f String.[] = ""
map_chars f (String.◌∷◌ c s) = String.◌∷◌ (f c) (map_chars f s)

-- s.lower(), for ASCII letters
unfoldable pub lower : String → String
unfolding translate map_chars
lower = map_chars (translate "ABCDEFGHIJKLMNOPQRSTUVWXYZ" "abcdefghijklmnopqrstuvwxyz")

-- s.replace("/", ".")
unfoldable pub dotted : String → String
unfolding translate map_chars
dotted = map_chars (translate "/" ".")

infixr 65 ◌^^◌
abbrev pub ◌^^◌ : String → String → String
s ^^ t = String.◌++◌ s t

-- `p` with `r` behind it.
abbrev pub followed_by : String → String → String
followed_by String.[] r = r
followed_by (String.◌∷◌ c p) r = String.◌∷◌ c (followed_by p r)

pub after_prefix_sound : (p s r : String) → after_prefix p s ≡ some r → s ≡ followed_by p r
unfolding after_prefix
after_prefix_sound String.[] s r h = ground arith
after_prefix_sound (String.◌∷◌ c p) String.[] r h = cc
after_prefix_sound (String.◌∷◌ c p) (String.◌∷◌ d s) r h =
    elim (Bool-cases (eqb (code c) (code d))) [
      | inl same ↦
          ap₂ String.◌∷◌ (Char-path d c (ground arith)) (after_prefix_sound p s r (rw same at h))
      | inr other ↦ cc (rw other at h)
    ]

-- A text that starts with `p` is `p` with something behind it.
pub begins_with_sound :
    (s p : String) → begins_with s p ≡ true → (r : String) × (s ≡ followed_by p r)
unfolding begins_with
begins_with_sound s p h = elim (Option-cases (after_prefix p s)) [
  | inl missing ↦ cc (rw missing at h)
  | inr (r, found) ↦ (r, after_prefix_sound p s r found)
]

-- Texts that differ in a prefix differ.
pub ne_of_prefix :
    (p s t : String) → begins_with s p ≡ true → begins_with t p ≡ false → (t == s) ≡ false
ne_of_prefix p s t h k = elim (Bool-cases (t == s)) [
  | inl same ↦ cc (ap (λ (x : String). begins_with x p) ((eq_iff t s).0 same))
  | inr other ↦ other
]

pub append-followed_by : (p r : String) → p ^^ r ≡ followed_by p r
append-followed_by String.[] r = nil-append r
append-followed_by (String.◌∷◌ c p) r =
    cons-append c p r ∙ ap (String.◌∷◌ c) (append-followed_by p r)

-- A common prefix can be dropped from a test.
pub eq-append : (p s t : String) → (s == t) ≡ false → (p ^^ s == p ^^ t) ≡ false
eq-append p s t h = elim (Bool-cases (p ^^ s == p ^^ t)) [
  | inl same ↦ cc (h, (eq_iff s t).1 (append_cancel_left p s t ((eq_iff (p ^^ s) (p ^^ t)).0 same)))
  | inr other ↦ other
]
