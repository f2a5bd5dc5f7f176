-- ===== src/Storage/Sqlite/Statements/Selected.antt =====
-- storage/sqlite_store.py: the rows that a statement selects or deletes.
use viskium.Prelude.{
  ℕ, zero, suc, ◌+◌, ◌≤◌, ◌<◌, ◌≡◌, refl, sym, ap, ◌∙◌, ◌⊎◌, inl, inr, true, false, List, [], ◌∷◌,
  arith, ◌==◌, length, if_rule, Bool-cases,
}
use viskium.Storage.Sqlite.Database.{Row}
use viskium.Storage.Sqlite.Statements.{
  take_rows, is_expired, comes_first, insert_by_expiry, expired_rows, has_sequence, sum_bytes,
  are_candidates, without,
}

-- The row is in the list.
abbrev pub In : Row → List Row → Type 0
In q [] = ⊥
In q (r ∷ rs) = (q ≡ r) ⊎ In q rs

-- No two rows have one sequence.
abbrev pub Unique : List Row → Type 0
Unique [] = Unit {0}
Unique (r ∷ rs) = (has_sequence r.store_sequence rs ≡ false) × Unique rs

-- Each row is one of `rows` that has expired.
abbrev pub Expired : ℕ → List Row → List Row → Type 0
Expired now rows [] = Unit {0}
Expired now rows (k ∷ ks) = (is_expired now k ≡ true) × In k rows × Expired now rows ks

Expired-later :
    (now : ℕ) (r : Row) (rows ks : List Row) → Expired now rows ks → Expired now (r ∷ rows) ks
Expired-later now r rows [] h = tt
Expired-later now r rows (k ∷ ks) h = (h.0, inr h.1, Expired-later now r rows ks h.2)

Expired-insert :
    (now : ℕ) (rows : List Row) (k : Row) (ks : List Row)
    → is_expired now k ≡ true
    → In k rows
    → Expired now rows ks
    → Expired now rows (insert_by_expiry k ks)
unfolding insert_by_expiry
Expired-insert now rows k [] e i h = (e, i, tt)
Expired-insert now rows k (q ∷ qs) e i h =
    if_rule (Expired now rows) (comes_first k q) (λ _. (e, i, h))
      (λ _. (h.0, h.1, Expired-insert now rows k qs e i h.2))

expired_rows-Expired : (now : ℕ) (rows : List Row) → Expired now rows (expired_rows now rows)
unfolding expired_rows
expired_rows-Expired now [] = tt
expired_rows-Expired now (r ∷ rs) =
    let rest = Expired-later now r rs (expired_rows now rs) (expired_rows-Expired now rs) in
    if_rule (Expired now (r ∷ rs)) (is_expired now r)
      (λ e. Expired-insert now (r ∷ rs) r (expired_rows now rs) e (inl refl) rest) (λ _. rest)

Expired-take :
    (now : ℕ) (rows : List Row) (n : ℕ) (ks : List Row)
    → Expired now rows ks
    → Expired now rows (take_rows n ks)
Expired-take now rows zero ks h = tt
Expired-take now rows (suc n) [] h = tt
Expired-take now rows (suc n) (k ∷ ks) h = (h.0, h.1, Expired-take now rows n ks h.2)

pub selected-Expired :
    (now limit : ℕ) (rows : List Row) → Expired now rows (take_rows limit (expired_rows now rows))
selected-Expired now limit rows =
    Expired-take now rows limit (expired_rows now rows) (expired_rows-Expired now rows)

has_sequence-In : (q : Row) (rs : List Row) → In q rs → has_sequence q.store_sequence rs ≡ true
unfolding has_sequence
has_sequence-In q [] h = absurd h
has_sequence-In q (r ∷ rs) (inl e) = rw e (ground arith)
has_sequence-In q (r ∷ rs) (inr h) = ground (arith, has_sequence-In q rs h)

-- A sequence names one row.
same_row :
    (rows : List Row) (k q : Row)
    → Unique rows
    → In k rows
    → In q rows
    → k.store_sequence ≡ q.store_sequence
    → k ≡ q
same_row [] k q u i j e = absurd i
same_row (r ∷ rs) k q u (inl a) (inl b) e = a ∙ sym b
same_row (r ∷ rs) k q u (inl a) (inr j) e = absurd (ground (arith, has_sequence-In q rs j))
same_row (r ∷ rs) k q u (inr i) (inl b) e = absurd (ground (arith, has_sequence-In k rs i))
same_row (r ∷ rs) k q u (inr i) (inr j) e = same_row rs k q u.1 i j e

unexpired_unselected :
    (now : ℕ) (rows ks : List Row) (q : Row)
    → Unique rows
    → In q rows
    → now < q.expires_unix_ns
    → Expired now rows ks
    → has_sequence q.store_sequence ks ≡ false
unfolding has_sequence is_expired
unexpired_unselected now rows [] q u i late h = refl
unexpired_unselected now rows (k ∷ ks) q u i late h =
    elim (Bool-cases (k.store_sequence == q.store_sequence)) [
      | inl e ↦
          let p = same_row rows k q u h.1 i (ground arith) in
          let t = ap (λ (x : Row). x.expires_unix_ns) p in absurd (ground arith)
      | inr e ↦ rw e (unexpired_unselected now rows ks q u i late h.2)
    ]

In-without :
    (q : Row) (ks rows : List Row)
    → In q rows
    → has_sequence q.store_sequence ks ≡ false
    → In q (without ks rows)
unfolding without
In-without q ks [] i h = i
In-without q ks (r ∷ rs) (inl e) h =
    let p : has_sequence r.store_sequence ks ≡ false =
      ap (λ (x : Row). has_sequence x.store_sequence ks) (sym e) ∙ h in
    rw p (inl e)
In-without q ks (r ∷ rs) (inr i) h =
    if_rule (In q) (has_sequence r.store_sequence ks) (λ _. In-without q ks rs i h)
      (λ _. inr (In-without q ks rs i h))

-- A row that has not expired survives the deletion of selected rows.
pub unexpired-In :
    (now : ℕ) (rows ks : List Row) (q : Row)
    → Unique rows
    → Expired now rows ks
    → In q rows
    → now < q.expires_unix_ns
    → In q (without ks rows)
unexpired-In now rows ks q u h i late =
    In-without q ks rows i (unexpired_unselected now rows ks q u i late h)

In-cons : (q r : Row) (xs rs : List Row) → (In q xs → In q rs) → In q (r ∷ xs) → In q (r ∷ rs)
In-cons q r xs rs f (inl e) = inl e
In-cons q r xs rs f (inr i) = inr (f i)

pub without-In : (q : Row) (ks rows : List Row) → In q (without ks rows) → In q rows
unfolding without
without-In q ks [] = λ i. i
without-In q ks (r ∷ rs) =
    if_rule (λ l. In q l → In q (r ∷ rs)) (has_sequence r.store_sequence ks)
      (λ _ i. inr (without-In q ks rs i)) (λ _. In-cons q r (without ks rs) rs (without-In q ks rs))

-- Deletion keeps what holds of each row with those after it.
without_keeps_absence :
    (n : ℕ) (ks rows : List Row)
    → has_sequence n rows ≡ false
    → has_sequence n (without ks rows) ≡ false
unfolding without has_sequence
without_keeps_absence n ks [] h = h
without_keeps_absence n ks (r ∷ rs) h =
    if_rule (λ l. has_sequence n l ≡ false) (has_sequence r.store_sequence ks)
      (λ _. ground (arith, without_keeps_absence n ks rs))
      (λ _. ground (arith, without_keeps_absence n ks rs))

pub without-Unique : (ks rows : List Row) → Unique rows → Unique (without ks rows)
unfolding without
without-Unique ks [] u = u
without-Unique ks (r ∷ rs) u =
    if_rule Unique (has_sequence r.store_sequence ks) (λ _. without-Unique ks rs u.1)
      (λ _. (without_keeps_absence r.store_sequence ks rs u.0, without-Unique ks rs u.1))

pub length-without : (ks rows : List Row) → length (without ks rows) ≤ length rows
unfolding without
length-without ks [] = omega arith
length-without ks (r ∷ rs) = ground (arith, length-without ks rs)

pub sum-without_le : (ks rows : List Row) → sum_bytes (without ks rows) ≤ sum_bytes rows
unfolding without sum_bytes
sum-without_le ks [] = omega arith
sum-without_le ks (r ∷ rs) = ground (arith, sum-without_le ks rs)

without_none :
    (n : Row) (rows : List Row)
    → has_sequence n.store_sequence rows ≡ false
    → without (n ∷ []) rows ≡ rows
unfolding without has_sequence
without_none n [] h = refl
without_none n (r ∷ rs) h = ground (arith, without_none n rs)

without-cons :
    (k : Row) (ks rows : List Row) → without (k ∷ ks) rows ≡ without (k ∷ []) (without ks rows)
unfolding without has_sequence
without-cons k ks [] = refl
without-cons k ks (r ∷ rs) = ground (arith, without-cons k ks rs)

sum-without_one :
    (k : Row) (rows : List Row)
    → Unique rows
    → In k rows
    → sum_bytes (without (k ∷ []) rows) + k.logical_bytes ≡ sum_bytes rows
unfolding without has_sequence sum_bytes
sum-without_one k [] u i = absurd i
sum-without_one k (r ∷ rs) u (inl e) =
    let p = ap (λ (x : Row). x.store_sequence) e in
    let b = ap (λ (x : Row). x.logical_bytes) e in
    let w : has_sequence k.store_sequence rs ≡ false =
      ap (λ (x : Row). has_sequence x.store_sequence rs) e ∙ u.0 in
    ground (arith, ap sum_bytes (without_none k rs w))
sum-without_one k (r ∷ rs) u (inr i) =
    ground (arith, sum-without_one k rs u.1 i, has_sequence-In k rs i)

pub without-nil : (rows : List Row) → without [] rows ≡ rows
unfolding without has_sequence
without-nil [] = refl
without-nil (r ∷ rs) = ap (λ l. r ∷ l) (without-nil rs)

distinct :
    (k : Row) (ks : List Row)
    → are_candidates (k ∷ ks) ≡ true
    → has_sequence k.store_sequence ks ≡ false
unfolding are_candidates
distinct k ks d = ground arith

fewer : (k : Row) (ks : List Row) → are_candidates (k ∷ ks) ≡ true → are_candidates ks ≡ true
unfolding are_candidates
fewer k ks d = ground arith

-- What is deleted and what is left make up the sum of the rows.
pub sum-without :
    (now : ℕ) (ks rows : List Row)
    → Unique rows
    → Expired now rows ks
    → are_candidates ks ≡ true
    → sum_bytes (without ks rows) + sum_bytes ks ≡ sum_bytes rows
unfolding sum_bytes
sum-without now [] rows u h d = omega (arith, ap sum_bytes (without-nil rows))
sum-without now (k ∷ ks) rows u h d =
    let left = In-without k ks rows h.1 (distinct k ks d) in
    omega (
      arith,
      ap sum_bytes (without-cons k ks rows),
      sum-without_one k (without ks rows) (without-Unique ks rows u) left,
      sum-without now ks rows u h.2 (fewer k ks d),
    )
