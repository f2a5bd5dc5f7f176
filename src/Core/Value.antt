-- ===== src/Core/Value.antt =====
-- Python values as the validators of the package see them, and what a validator raises.
use Prim.Native.Char.{code}
use viskium.Prelude.{
  ℕ, suc, ◌*◌, ◌^◌, String, Option, none, some, Bool, true, false, not, ◌&&◌, ◌||◌, ltb, leb, ◌==◌,
  if◌then◌else◌,
}

-- A finite float is exactly `numerator / 2 ^ exponent`, with a sign.
pub data Float : Type 0 where
  nan : Float
  infinite : Bool → Float
  finite : Bool → ℕ → ℕ → Float

-- `negative n` is the integer -(n + 1); `other` is any object of another type.
pub data Value : Type 0 where
  none_value : Value
  boolean : Bool → Value
  natural : ℕ → Value
  negative : ℕ → Value
  float : Float → Value
  string : String → Value
  other : Value

pub data Error : Type 0 where
  type_error value_error key_error overflow_error : Error

pub data Result {ℓ} (A : Type ℓ) : Type ℓ where
  ok : A → Result A
  raise : Error → Result A

infixl 5 ◌>>=◌ ◌>>◌
abbrev pub ◌>>=◌ {ℓ κ} : {A : Type ℓ} {B : Type κ} → Result A → (A → Result B) → Result B
ok a >>= f = f a
raise e >>= f = raise e

abbrev pub ◌>>◌ {ℓ} : {B : Type ℓ} → Result (Unit {0}) → Result B → Result B
m >> k = m >>= λ _. k

-- `if test: raise ValueError`
abbrev pub refuse_if : Bool → Result (Unit {0})
refuse_if true = raise value_error
refuse_if false = ok tt

-- `_require_integer(value, name, minimum, maximum)`, for a minimum that is not negative.
abbrev pub require_integer : ℕ → Option ℕ → Value → Result ℕ
require_integer minimum none (natural n) = if ltb n minimum then raise value_error else ok n
require_integer minimum (some maximum) (natural n) =
    if ltb n minimum then raise value_error else if ltb maximum n then raise value_error else ok n
require_integer minimum maximum (negative n) = raise value_error
require_integer minimum maximum v = raise type_error

-- `_require_finite_float(value, name, minimum_exclusive=0.0, maximum=maximum)`.
abbrev pub require_finite_float : ℕ → Value → Result Float
require_finite_float maximum (float (finite true n k)) = raise value_error
require_finite_float maximum (float (finite false n k)) =
    if n == 0
    then raise value_error
    else if ltb (maximum * 2 ^ k) n
    then raise value_error
    else ok (finite false n k)
require_finite_float maximum (float f) = raise value_error
require_finite_float maximum v = raise type_error

-- `str.isspace` of one code point.
abbrev is_space : ℕ → Bool
is_space c =
    (leb 9 c && leb c 13)
    || (leb 28 c && leb c 32)
    || c == 133
    || c == 160
    || c == 5760
    || (leb 8192 c && leb c 8202)
    || c == 8232
    || c == 8233
    || c == 8239
    || c == 8287
    || c == 12288

-- `not text.strip()`
pub is_blank : String → Bool
is_blank String.[] = true
is_blank (String.◌∷◌ c s) = is_space (code c) && is_blank s

-- `len(text)`, in code points.
pub length_of : String → ℕ
length_of String.[] = 0
length_of (String.◌∷◌ c s) = suc (length_of s)

-- The test of `_require_reason_code`, `_require_non_empty` and the like.
unfoldable pub is_text : ℕ → String → Bool
unfolding is_blank length_of
is_text limit s = not (is_blank s) && leb (length_of s) limit

abbrev pub require_text : ℕ → Value → Result String
require_text limit (string s) = if is_text limit s then ok s else raise value_error
require_text limit v = raise type_error
