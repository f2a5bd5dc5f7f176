-- ===== src/Observations/Latest/Arguments.antt =====
-- observations/latest.py: the checks of what `read` is given.
use text.Mathlib.Text.{◌==◌ as str_eq}
use viskium.Prelude.{
  ℕ, zero, suc, ◌-◌, ◌*◌, ◌^◌, String, Option, none, some, Bool, true, false, ◌||◌, List, [], ◌∷◌,
  leb, ltb, length, if◌then◌else◌,
}
use viskium.Core.Value.{
  Value, natural, negative, float, string, Float, finite, Result, ok, raise, type_error,
  value_error, overflow_error, ◌>>=◌, is_text,
}

abbrev pub max_observation_wait_seconds : ℕ
max_observation_wait_seconds = 15

abbrev pub max_observation_schema_ids : ℕ
max_observation_schema_ids = 8

abbrev pub max_schema_id_chars : ℕ
max_schema_id_chars = 256

-- `_require_non_negative_integer`
unfoldable pub require_non_negative_integer : Value → Result ℕ
require_non_negative_integer (natural n) = ok n
require_non_negative_integer (negative n) = raise value_error
require_non_negative_integer v = raise type_error

-- `float(n)` is too large from here on.
float_limit : ℕ
float_limit = 2 ^ 1024 - 2 ^ 970

-- `_normalize_wait_seconds`: the float `n / 2 ^ k`, and `-0.0` for a negative zero.
unfoldable pub normalize_wait_seconds : Value → Result Float
unfolding float_limit
normalize_wait_seconds (natural n) =
    if leb n max_observation_wait_seconds
    then ok (finite false n 0)
    else if leb float_limit n
    then raise overflow_error
    else raise value_error
normalize_wait_seconds (negative n) =
    if leb float_limit (suc n) then raise overflow_error else raise value_error
normalize_wait_seconds (float (finite true zero k)) = ok (finite true 0 k)
normalize_wait_seconds (float (finite true (suc n) k)) = raise value_error
normalize_wait_seconds (float (finite false n k)) =
    if leb n (max_observation_wait_seconds * 2 ^ k)
    then ok (finite false n k)
    else raise value_error
normalize_wait_seconds (float f) = raise value_error
normalize_wait_seconds v = raise type_error

-- `maximum_wait == 0.0`
unfoldable pub is_zero : Float → Bool
is_zero (finite negated zero k) = true
is_zero f = false

-- What is given as `schema_ids`; a set is given in the order in which it is traversed.
pub data SchemaIds : Type 0 where
  absent one_text not_sized : SchemaIds
  collection : List Value → SchemaIds

check_schema_ids : List Value → Result (List String)
unfolding is_text
check_schema_ids [] = ok []
check_schema_ids (string s ∷ vs) =
    let rest = check_schema_ids vs in
    if is_text max_schema_id_chars s then (rest >>= λ ids. ok (s ∷ ids)) else raise value_error
check_schema_ids (v ∷ vs) = raise type_error

-- `_normalize_schema_ids`; `none` accepts every schema.
unfoldable pub normalize_schema_ids : SchemaIds → Result (Option (List String))
unfolding check_schema_ids
normalize_schema_ids absent = ok none
normalize_schema_ids one_text = raise type_error
normalize_schema_ids not_sized = raise type_error
normalize_schema_ids (collection vs) =
    if ltb max_observation_schema_ids (length vs)
    then raise value_error
    else (check_schema_ids vs >>= λ ids. ok (some ids))

unfoldable pub contains : String → List String → Bool
contains x [] = false
contains x (y ∷ ys) = str_eq x y || contains x ys

-- `accepted_schemas is None or schema_id in accepted_schemas`
unfoldable pub accepts : Option (List String) → String → Bool
unfolding contains
accepts none x = true
accepts (some ids) x = contains x ids
