-- ===== src/Json.antt =====
-- JSON values, as `json.loads` and `Request.json()` return them to the code of app/.
-- A number is an `int`, or a `float`: a finite one is m / 2 ^ k, and Python's parser also reads
-- `Infinity`, `-Infinity` and `NaN`.
use omnibioai_api_gateway.Prelude.{
  ℕ, String, Bool, true, false, Option, none, some, ◌==◌, if◌then◌else◌, not, eqb,
}
use omnibioai_api_gateway.Prelude.Int.{ℤ, pos, negsuc}

pub data Float : Type 0 where
  finite : ℤ → ℕ → Float
  infinity minus_infinity nan : Float

mutual
  pub data Json : Type 0 where
    null : Json
    bool : Bool → Json
    int : ℤ → Json
    float : Float → Json
    str : String → Json
    arr : Items → Json
    obj : Fields → Json

  pub data Items : Type 0 where
    nil : Items
    cons : Json → Items → Items

  pub data Fields : Type 0 where
    end : Fields
    field : String → Json → Fields → Fields

-- d.get(key), where a missing key is `none`
abbrev pub find : String → Fields → Option Json
find key end = none
find key (field k v fs) = if k == key then some v else find key fs

-- d.get(key, default)
abbrev pub get_or : String → Json → Fields → Json
get_or key d fs = elim (find key fs) [ none ↦ d | some v ↦ v ]

-- d.get(key)
abbrev pub get : String → Fields → Json
get key fs = get_or key null fs

-- bool(value)
abbrev pub is_nonzero : ℤ → Bool
is_nonzero (pos n) = not (eqb n 0)
is_nonzero (negsuc n) = true

abbrev pub truthy : Json → Bool
truthy null = false
truthy (bool b) = b
truthy (int z) = is_nonzero z
truthy (float (finite m k)) = is_nonzero m
truthy (float x) = true
truthy (str s) = not (s == "")
truthy (arr nil) = false
truthy (arr (cons x xs)) = true
truthy (obj end) = false
truthy (obj (field k v fs)) = true

-- `a or b`
infixr 30 ◌or◌
abbrev pub ◌or◌ : Json → Json → Json
a or b = if truthy a then a else b

-- d[key] = value
abbrev pub assign : String → Json → Fields → Fields
assign key v end = field key v end
assign key v (field k w fs) = if k == key then field key v fs else field k w (assign key v fs)

-- A value as a dict, where `.get` on another type raises.
abbrev pub fields_of : Json → Option Fields
fields_of (obj fs) = some fs
fields_of _ = none
