-- ===== src/Core/Serialization.antt =====
-- core/serialization.py: the canonical encoding of a JSON value. A token is the list of its bytes.
-- Texts are sequences of Unicode scalar values, all of which UTF-8 encodes; keys of a mapping are
-- texts, so that no TypeError is raised.
pub mod Document
pub mod Size
pub mod Order
mod Tests
use Prim.Native.Nat.{◌/◌, ◌%◌}
use Prim.Native.Char.{code}
use viskium.Prelude.{
  ℕ, zero, suc, ◌+◌, ◌-◌, String, Option, none, some, Bool, true, false, List, [], ◌∷◌, ◌++◌, ltb,
  leb, ◌==◌, length, if◌then◌else◌,
}
use viskium.Core.Envelope.{
  Json, Items, Members, null, boolean, integer, float, string, array, object, no_items, item,
  no_members, member,
}

abbrev string_chunk_chars : ℕ
string_chunk_chars = 4_096

-- The code points of a text.
abbrev pub codes : String → List ℕ
codes String.[] = []
codes (String.◌∷◌ c s) = code c ∷ codes s

-- `.encode("utf-8")` of one code point.
utf8 : ℕ → List ℕ
utf8 c =
    if ltb c 128
    then c ∷ []
    else if ltb c 2_048
    then (192 + c / 64) ∷ (128 + c % 64) ∷ []
    else if ltb c 65_536
    then (224 + c / 4_096) ∷ (128 + c / 64 % 64) ∷ (128 + c % 64) ∷ []
    else (240 + c / 262_144) ∷ (128 + c / 4_096 % 64) ∷ (128 + c / 64 % 64) ∷ (128 + c % 64) ∷ []

hex_digit : ℕ → ℕ
hex_digit n = if ltb n 10 then 48 + n else 87 + n

-- What `json.dumps(…, ensure_ascii=False)` writes for one code point.
escape : ℕ → List ℕ
unfolding hex_digit
escape c =
    if c == 34
    then 92 ∷ 34 ∷ []
    else if c == 92
    then 92 ∷ 92 ∷ []
    else if c == 8
    then 92 ∷ 98 ∷ []
    else if c == 9
    then 92 ∷ 116 ∷ []
    else if c == 10
    then 92 ∷ 110 ∷ []
    else if c == 12
    then 92 ∷ 102 ∷ []
    else if c == 13
    then 92 ∷ 114 ∷ []
    else if ltb c 32
    then 92 ∷ 117 ∷ 48 ∷ 48 ∷ hex_digit (c / 16) ∷ hex_digit (c % 16) ∷ []
    else c ∷ []

abbrev pub concat_map : (ℕ → List ℕ) → List ℕ → List ℕ
concat_map f [] = []
concat_map f (c ∷ cs) = f c ++ concat_map f cs

-- The bytes of a text, escaped.
pub encode_text : List ℕ → List ℕ
unfolding utf8 escape
encode_text cs = concat_map utf8 (concat_map escape cs)

join_first : ℕ → List (List ℕ) → List (List ℕ)
join_first c [] = (c ∷ []) ∷ []
join_first c (k ∷ ks) = (c ∷ k) ∷ ks

-- The slices of a text that `range(0, len(value), _STRING_CHUNK_CHARS)` cuts, where `room` is left
-- in the current one.
chunks : ℕ → List ℕ → List (List ℕ)
unfolding join_first
chunks room [] = []
chunks zero (c ∷ cs) = [] ∷ join_first c (chunks (string_chunk_chars - 1) cs)
chunks (suc room) (c ∷ cs) = join_first c (chunks room cs)

abbrev encode_all : List (List ℕ) → List (List ℕ)
unfolding encode_text
encode_all [] = []
encode_all (k ∷ ks) = encode_text k ∷ encode_all ks

quote : List ℕ
quote = 34 ∷ []

-- `_json_string_tokens`
pub string_tokens : String → List (List ℕ)
unfolding chunks quote encode_text
string_tokens s = quote ∷ (encode_all (chunks string_chunk_chars (codes s)) ++ quote ∷ [])

digits : ℕ → ℕ → List ℕ → List ℕ
digits zero n acc = acc
digits (suc fuel) n acc =
    let rest = digits fuel (n / 10) ((48 + n % 10) ∷ acc) in
    if ltb n 10 then (48 + n) ∷ acc else rest

-- `str(n)`
decimal : ℕ → List ℕ
unfolding digits
decimal n = digits (suc n) n []

-- An integer by its sign and its size.
integer_text : Bool → ℕ → List ℕ
unfolding decimal
integer_text true n = 45 ∷ decimal n
integer_text false n = decimal n

-- `<` on texts, by code points.
is_before : List ℕ → List ℕ → Bool
is_before cs [] = false
is_before [] (d ∷ ds) = true
is_before (c ∷ cs) (d ∷ ds) =
    let rest = is_before cs ds in if ltb c d then true else if c == d then rest else false

-- A key with the tokens of its value.
abbrev Entry : Type 0
Entry = String × List (List ℕ)

insert_entry : Entry → List Entry → List Entry
unfolding is_before
insert_entry e [] = e ∷ []
insert_entry (k, v) ((j, w) ∷ es) =
    if is_before (codes j) (codes k) then (j, w) ∷ insert_entry (k, v) es else (k, v) ∷ (j, w) ∷ es

-- `sorted(value)`
sort_entries : List Entry → List Entry
unfolding insert_entry
sort_entries [] = []
sort_entries (e ∷ es) = insert_entry e (sort_entries es)

entry_tokens : Entry → List (List ℕ)
unfolding string_tokens
entry_tokens (k, v) = string_tokens k ++ ((58 ∷ []) ∷ v)

-- A comma stands before each entry but the first.
join_entries : Bool → List Entry → List (List ℕ)
unfolding entry_tokens
join_entries first [] = []
join_entries true (e ∷ es) = entry_tokens e ++ join_entries false es
join_entries false (e ∷ es) = (44 ∷ []) ∷ (entry_tokens e ++ join_entries false es)

-- `canonical_json_tokens`
unfoldable mutual
  unfolding string_tokens integer_text sort_entries join_entries

  pub json_tokens : Json → List (List ℕ)
  json_tokens null = codes "null" ∷ []
  json_tokens (boolean true) = codes "true" ∷ []
  json_tokens (boolean false) = codes "false" ∷ []
  json_tokens (string s) = string_tokens s
  json_tokens (integer negated n) = integer_text negated n ∷ []
  json_tokens (float text) = codes text ∷ []
  json_tokens (object ms) =
      (123 ∷ []) ∷ (join_entries true (sort_entries (member_entries ms)) ++ (125 ∷ []) ∷ [])
  json_tokens (array xs) = (91 ∷ []) ∷ (item_tokens true xs ++ (93 ∷ []) ∷ [])

  pub item_tokens : Bool → Items → List (List ℕ)
  item_tokens first no_items = []
  item_tokens true (item x xs) = json_tokens x ++ item_tokens false xs
  item_tokens false (item x xs) = (44 ∷ []) ∷ (json_tokens x ++ item_tokens false xs)

  pub member_entries : Members → List (String × List (List ℕ))
  member_entries no_members = []
  member_entries (member k x ms) = (k, json_tokens x) ∷ member_entries ms

bytes_loop : ℕ → List ℕ → List (List ℕ) → Option (List ℕ)
bytes_loop limit encoded [] = some encoded
bytes_loop limit encoded (chunk ∷ rest) =
    let more = bytes_loop limit (encoded ++ chunk) rest in
    if ltb limit (length encoded + length chunk) then none else more

size_loop : ℕ → ℕ → List (List ℕ) → Option ℕ
size_loop limit encoded_size [] = some encoded_size
size_loop limit encoded_size (token ∷ rest) =
    let more = size_loop limit (encoded_size + length token) rest in
    if ltb limit (encoded_size + length token) then none else more

-- `bounded_canonical_json_bytes`, for a positive limit.
unfoldable pub bounded_canonical_json_bytes : Json → ℕ → Option (List ℕ)
unfolding bytes_loop json_tokens
bounded_canonical_json_bytes v limit = bytes_loop limit [] (json_tokens v)

-- `canonical_json_size`, for a positive limit.
unfoldable pub canonical_json_size : Json → ℕ → Option ℕ
unfolding size_loop json_tokens
canonical_json_size v limit = size_loop limit 0 (json_tokens v)
