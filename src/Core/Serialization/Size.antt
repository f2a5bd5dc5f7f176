-- ===== src/Core/Serialization/Size.antt =====
-- core/serialization.py: the size of an encoding, and its limit.
use mathlib.Core.List.{append_assoc, append-nil}
use viskium.Prelude.{
  ℕ, zero, suc, ◌+◌, ◌≤◌, ◌≡◌, refl, none, some, List, [], ◌∷◌, ◌++◌, arith, leb, length,
  length-append, if◌then◌else◌, ap, ◌∙◌, sym, String,
}
use viskium.Core.Envelope.{Json}
use viskium.Core.Serialization.{
  json_tokens, bytes_loop, size_loop, bounded_canonical_json_bytes, canonical_json_size, codes,
  concat_map, chunks, join_first, encode_text, encode_all, string_tokens, quote, utf8, escape,
}

abbrev pub concat : List (List ℕ) → List ℕ
concat [] = []
concat (t ∷ ts) = t ++ concat ts

-- All the bytes of a value.
abbrev pub canonical_bytes : Json → List ℕ
canonical_bytes v = concat (json_tokens v)

size_loop-eq :
    (limit n : ℕ) (ts : List (List ℕ))
    → n ≤ limit
    → size_loop limit n ts
      ≡ (if leb (n + length (concat ts)) limit then some (n + length (concat ts)) else none)
unfolding size_loop
size_loop-eq limit n [] h = ground arith
size_loop-eq limit n (t ∷ ts) h =
    ground (arith, length-append t (concat ts), size_loop-eq limit (n + length t) ts)

bytes_loop-eq :
    (limit : ℕ) (bs : List ℕ) (ts : List (List ℕ))
    → length bs ≤ limit
    → bytes_loop limit bs ts
      ≡ (if leb (length bs + length (concat ts)) limit then some (bs ++ concat ts) else none)
unfolding bytes_loop
bytes_loop-eq limit bs [] h = ground (arith, append-nil bs)
bytes_loop-eq limit bs (t ∷ ts) h = ground (
  arith,
  length-append t (concat ts),
  length-append bs t,
  append_assoc bs t (concat ts),
  bytes_loop-eq limit (bs ++ t) ts,
)

-- Both bounded encoders stop exactly where the whole encoding is longer than the limit: below it, one
-- gives the whole encoding and the other its length.
pub encoders_agree :
    (v : Json) (limit : ℕ)
    → let bytes = canonical_bytes v in
      (bounded_canonical_json_bytes v limit
        ≡ (if leb (length bytes) limit then some bytes else none))
      × (canonical_json_size v limit
          ≡ (if leb (length bytes) limit then some (length bytes) else none))
unfolding bounded_canonical_json_bytes canonical_json_size
encoders_agree v limit =
    ground (arith, bytes_loop-eq limit [] (json_tokens v), size_loop-eq limit 0 (json_tokens v))

concat_map-append :
    (f : ℕ → List ℕ) (xs ys : List ℕ) → concat_map f (xs ++ ys) ≡ concat_map f xs ++ concat_map f ys
concat_map-append f [] ys = refl
concat_map-append f (x ∷ xs) ys =
    ap (λ l. f x ++ l) (concat_map-append f xs ys) ∙ sym (append_assoc (f x) _ _)

encode_text-append : (xs ys : List ℕ) → encode_text (xs ++ ys) ≡ encode_text xs ++ encode_text ys
unfolding encode_text
encode_text-append xs ys =
    ap (concat_map utf8) (concat_map-append escape xs ys)
    ∙ concat_map-append utf8 (concat_map escape xs) (concat_map escape ys)

concat-append : (xs ys : List (List ℕ)) → concat (xs ++ ys) ≡ concat xs ++ concat ys
concat-append [] ys = refl
concat-append (x ∷ xs) ys = ap (λ l. x ++ l) (concat-append xs ys) ∙ sym (append_assoc x _ _)

join_first-bytes :
    (c : ℕ) (ks : List (List ℕ))
    → concat (encode_all (join_first c ks)) ≡ encode_text (c ∷ []) ++ concat (encode_all ks)
unfolding join_first encode_all
join_first-bytes c [] = refl
join_first-bytes c (k ∷ ks) =
    ap (λ l. l ++ concat (encode_all ks)) (encode_text-append (c ∷ []) k)
    ∙ append_assoc (encode_text (c ∷ [])) (encode_text k) (concat (encode_all ks))

chunks-bytes : (room : ℕ) (cs : List ℕ) → concat (encode_all (chunks room cs)) ≡ encode_text cs
unfolding chunks encode_all
chunks-bytes room [] = refl
chunks-bytes zero (c ∷ cs) =
    join_first-bytes c (chunks 4_095 cs)
    ∙ ap (λ l. encode_text (c ∷ []) ++ l) (chunks-bytes 4_095 cs)
    ∙ sym (encode_text-append (c ∷ []) cs)
chunks-bytes (suc room) (c ∷ cs) =
    join_first-bytes c (chunks room cs)
    ∙ ap (λ l. encode_text (c ∷ []) ++ l) (chunks-bytes room cs)
    ∙ sym (encode_text-append (c ∷ []) cs)

-- Cutting a text into slices does not show: the tokens of a text are, together, its escaped bytes
-- between two quotes.
pub string_tokens-bytes :
    (s : String) → concat (string_tokens s) ≡ 34 ∷ (encode_text (codes s) ++ 34 ∷ [])
unfolding string_tokens quote encode_all
string_tokens-bytes s =
    ap (λ l. 34 ∷ l)
      (concat-append (encode_all (chunks 4_096 (codes s))) ((34 ∷ []) ∷ [])
        ∙ ap (λ l. l ++ 34 ∷ []) (chunks-bytes 4_096 (codes s)))
