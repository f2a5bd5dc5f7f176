-- ===== src/Core/Serialization/Order.antt =====
-- core/serialization.py: the order of a mapping's members.
use viskium.Prelude.{
  ℕ, ◌≡◌, ◌≢◌, refl, ap, ◌∙◌, String, true, false, List, [], ◌∷◌, ◌++◌, arith, Bool-cases, inl, inr,
}
use viskium.Core.Envelope.{Json, Members, member, object}
use viskium.Core.Serialization.{
  codes, is_before, Entry, insert_entry, sort_entries, join_entries, json_tokens, member_entries,
}

-- `is_before` is a linear order of the texts.
is_before_between :
    (a b c : List ℕ) → is_before a c ≡ true → is_before a b ≡ false → is_before b c ≡ true
unfolding is_before
is_before_between a b [] p q = absurd (ground arith)
is_before_between [] [] (z ∷ c) p q = refl
is_before_between [] (y ∷ b) (z ∷ c) p q = cc
is_before_between (x ∷ a) [] (z ∷ c) p q = refl
is_before_between (x ∷ a) (y ∷ b) (z ∷ c) p q = ground (arith, is_before_between a b c)

is_before_asym : (a b : List ℕ) → is_before a b ≡ true → is_before b a ≡ false
unfolding is_before
is_before_asym a [] p = absurd (ground arith)
is_before_asym [] (y ∷ b) p = refl
is_before_asym (x ∷ a) (y ∷ b) p = ground (arith, is_before_asym a b)

is_before_total : (a b : List ℕ) → is_before a b ≡ false → is_before b a ≡ false → a ≡ b
unfolding is_before
is_before_total [] [] p q = refl
is_before_total [] (y ∷ b) p q = cc
is_before_total (x ∷ a) [] p q = cc
is_before_total (x ∷ a) (y ∷ b) p q = ground (arith, is_before_total a b)

module _ (k j : String) (v w : List (List ℕ)) (es : List Entry) where
  insert_after :
      is_before (codes j) (codes k) ≡ true
      → insert_entry (k, v) ((j, w) ∷ es) ≡ (j, w) ∷ insert_entry (k, v) es
  unfolding insert_entry
  insert_after p = rw p

  insert_here :
      is_before (codes j) (codes k) ≡ false
      → insert_entry (k, v) ((j, w) ∷ es) ≡ (k, v) ∷ (j, w) ∷ es
  unfolding insert_entry
  insert_here p = rw p

-- Both entries come to stand before the same rest.
insert_two :
    (k j : String) (v w : List (List ℕ)) (es : List Entry)
    → codes k ≢ codes j
    → insert_entry (k, v) es ≡ (k, v) ∷ es
    → insert_entry (j, w) es ≡ (j, w) ∷ es
    → insert_entry (k, v) ((j, w) ∷ es) ≡ insert_entry (j, w) ((k, v) ∷ es)
insert_two k j v w es ne p q = elim (Bool-cases (is_before (codes j) (codes k))) [
  | inl r ↦
      cc (insert_after k j v w es r, insert_here j k w v es (is_before_asym (codes j) (codes k) r))
  | inr r ↦ elim (Bool-cases (is_before (codes k) (codes j))) [
    | inl t ↦ cc (insert_here k j v w es r, insert_after j k w v es t)
    | inr t ↦ absurd (ne (is_before_total (codes k) (codes j) t r))
  ]
]

insert_comm :
    (k j : String) (v w : List (List ℕ)) (es : List Entry)
    → codes k ≢ codes j
    → insert_entry (k, v) (insert_entry (j, w) es) ≡ insert_entry (j, w) (insert_entry (k, v) es)
insert_comm k j v w [] ne = unfold insert_entry in insert_two k j v w [] ne refl refl
insert_comm k j v w ((i, u) ∷ es) ne =
    let K = insert_entry (k, v) es in
    let J = insert_entry (j, w) es in
    let I = (i, u) ∷ es in
    elim (Bool-cases (is_before (codes i) (codes k))) [
      | inl p ↦ elim (Bool-cases (is_before (codes i) (codes j))) [
        | inl q ↦ cc (
          insert_after k i v u es p,
          insert_after j i w u es q,
          insert_after k i v u J p,
          insert_after j i w u K q,
          insert_comm k j v w es ne,
        )
        | inr q ↦ cc (
          insert_after k i v u es p,
          insert_here j i w u es q,
          insert_after k j v w I (is_before_between (codes i) (codes j) (codes k) p q),
          insert_here j i w u K q,
        )
      ]
      | inr p ↦ elim (Bool-cases (is_before (codes i) (codes j))) [
        | inl q ↦ cc (
          insert_after j i w u es q,
          insert_here k i v u es p,
          insert_after j k w v I (is_before_between (codes i) (codes k) (codes j) q p),
          insert_here k i v u J p,
        )
        | inr q ↦
            let here_k = insert_here k i v u es p in
            let here_j = insert_here j i w u es q in
            cc (here_k, here_j, insert_two k j v w I ne here_k here_j)
      ]
    ]

-- Two lists of members of one mapping, in the orders of two insertions.
pub data Reordered : Members → Members → Type 0 where
  same : (ms : Members) → Reordered ms ms
  swap :
      (k j : String) (x y : Json) (ms : Members)
      → codes k ≢ codes j
      → Reordered (member k x (member j y ms)) (member j y (member k x ms))
  under :
      (k : String) (x : Json) {ms ns : Members}
      → Reordered ms ns
      → Reordered (member k x ms) (member k x ns)
  chain : {ms ns ps : Members} → Reordered ms ns → Reordered ns ps → Reordered ms ps

sort-Reordered :
    {ms ns : Members}
    → Reordered ms ns
    → sort_entries (member_entries ms) ≡ sort_entries (member_entries ns)
unfolding sort_entries member_entries
sort-Reordered (same ms) = refl
sort-Reordered (swap k j x y ms ne) =
    insert_comm k j (json_tokens x) (json_tokens y) (sort_entries (member_entries ms)) ne
sort-Reordered (under k x r) = ap (insert_entry (k, json_tokens x)) (sort-Reordered r)
sort-Reordered (chain r s) = sort-Reordered r ∙ sort-Reordered s

-- The encoding is canonical: two mappings with the same members, in whatever order they were put in,
-- have the same tokens.
pub json_tokens-Reordered :
    (ms ns : Members) → Reordered ms ns → json_tokens (object ms) ≡ json_tokens (object ns)
unfolding json_tokens
json_tokens-Reordered ms ns r =
    ap (λ es. (123 ∷ []) ∷ (join_entries true es ++ (125 ∷ []) ∷ [])) (sort-Reordered r)
