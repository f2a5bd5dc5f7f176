-- ===== src/Core/Serialization/Tests.antt =====
-- core/serialization.py: the encoding of concrete values.
use viskium.Prelude.{arith, ◌≡◌, ◌≢◌, refl, some, none, true, [], ◌∷◌, leb, length, if◌then◌else◌}
use viskium.Core.Envelope.{
  Json, Members, null, integer, array, object, no_items, item, no_members, member,
}
use viskium.Core.Serialization.{
  codes, json_tokens, bounded_canonical_json_bytes, canonical_json_size, string_tokens,
}
use viskium.Core.Serialization.Size.{concat, canonical_bytes, encoders_agree}
use viskium.Core.Serialization.Order.{swap, json_tokens-Reordered}

abbrev one_item : Json
one_item = array (item (integer true 12) no_items)

abbrev members : Members
members = member "b" one_item (member "a" null no_members)

abbrev reordered : Members
reordered = member "a" null (member "b" one_item no_members)

members_bytes : canonical_bytes (object members) ≡ codes "{\"a\":null,\"b\":[-12]}"
unfolding json_tokens
members_bytes = refl

escapes : concat (string_tokens "é\n\"") ≡ 34 ∷ 195 ∷ 169 ∷ 92 ∷ 110 ∷ 92 ∷ 34 ∷ 34 ∷ []
unfolding json_tokens
escapes = refl

encoders_agree_example :
    let bytes = canonical_bytes (object members) in
    (bounded_canonical_json_bytes (object members) 20
      ≡ (if leb (length bytes) 20 then some bytes else none))
    × (canonical_json_size (object members) 20
        ≡ (if leb (length bytes) 20 then some (length bytes) else none))
encoders_agree_example = encoders_agree (object members) 20

keys_differ : codes "b" ≢ codes "a"
keys_differ e = ground arith

json_tokens-Reordered_example : json_tokens (object members) ≡ json_tokens (object reordered)
json_tokens-Reordered_example =
    json_tokens-Reordered members reordered (swap "b" "a" one_item null no_members keys_differ)
