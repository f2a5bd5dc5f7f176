-- ===== src/Storage/Sqlite/Statements/Added.antt =====
-- storage/sqlite_store.py: what a row that the constraints allow adds to the table.
use text.Mathlib.Text.{◌==◌ as str_eq}
use text.Mathlib.TextEquality.{eq_iff}
use viskium.Prelude.{
  ℕ, ◌+◌, ◌≤◌, ◌<◌, ◌≡◌, refl, String, ◌⊎◌, inl, inr, none, some, true, false, List, [], ◌∷◌, ◌++◌,
  arith, ◌==◌, length, Bool-cases,
}
use viskium.Storage.Sqlite.Database.{Row}
use viskium.Storage.Sqlite.Statements.{find_key, has_sequence, sum_bytes, allows}
use viskium.Storage.Sqlite.Statements.Rows.{Absent, DistinctKeys, Below}
use viskium.Storage.Sqlite.Statements.Selected.{In, Unique}

-- What the constraints say of a row.
pub record Allowed (rows : List Row) (r : Row) : Type 0 where
  pub new_sequence : has_sequence r.store_sequence rows ≡ false
  pub new_key : find_key r.idempotency_key rows ≡ none
  pub positive : 1 ≤ r.store_sequence
  pub digest : length r.document_sha256 ≡ 32
  pub lasting : r.stored_unix_ns ≤ r.expires_unix_ns

pub allows-Allowed : (rows : List Row) (r : Row) → allows rows r ≡ true → Allowed rows r
unfolding allows
allows-Allowed rows r h = ground arith

pub find_key-Absent : (key : String) (rows : List Row) → find_key key rows ≡ none → Absent key rows
unfolding find_key
find_key-Absent key [] h = tt
find_key-Absent key (r ∷ rs) h = elim (Bool-cases (str_eq r.idempotency_key key)) [
  | inl e ↦ absurd (ground arith)
  | inr e ↦ (e, find_key-Absent key rs (ground arith))
]

Absent-append :
    (key : String) (rows : List Row) (r : Row)
    → Absent key rows
    → str_eq r.idempotency_key key ≡ false
    → Absent key (rows ++ r ∷ [])
Absent-append key [] r h e = (e, tt)
Absent-append key (q ∷ qs) r h e = (h.0, Absent-append key qs r h.1 e)

pub str_eq_sym : (a b : String) → str_eq a b ≡ false → str_eq b a ≡ false
str_eq_sym a b h = ground (arith, eq_iff a b, eq_iff b a)

pub DistinctKeys-append :
    (rows : List Row) (r : Row)
    → DistinctKeys rows
    → Absent r.idempotency_key rows
    → DistinctKeys (rows ++ r ∷ [])
DistinctKeys-append [] r h a = (tt, tt)
DistinctKeys-append (q ∷ qs) r h a = (
  Absent-append q.idempotency_key qs r h.0 (str_eq_sym q.idempotency_key r.idempotency_key a.0),
  DistinctKeys-append qs r h.1 a.1,
)

absence-append :
    (n : ℕ) (rows : List Row) (r : Row)
    → has_sequence n rows ≡ false
    → (r.store_sequence == n) ≡ false
    → has_sequence n (rows ++ r ∷ []) ≡ false
unfolding has_sequence
absence-append n [] r h e = ground arith
absence-append n (q ∷ qs) r h e = ground (arith, absence-append n qs r)

pub Unique-append :
    (rows : List Row) (r : Row)
    → Unique rows
    → has_sequence r.store_sequence rows ≡ false
    → Unique (rows ++ r ∷ [])
unfolding has_sequence
Unique-append [] r u h = (refl, tt)
Unique-append (q ∷ qs) r u h =
    (absence-append q.store_sequence qs r u.0 (ground arith), Unique-append qs r u.1 (ground arith))

pub Below-append :
    (n m : ℕ) (rows : List Row) (r : Row)
    → n ≤ m
    → Below n rows
    → r.store_sequence < m
    → Below m (rows ++ r ∷ [])
Below-append n m [] r k h e = (e, tt)
Below-append n m (q ∷ qs) r k h e = (omega (arith, h.0), Below-append n m qs r k h.1 e)

pub sum-append :
    (rows : List Row) (r : Row) → sum_bytes (rows ++ r ∷ []) ≡ sum_bytes rows + r.logical_bytes
unfolding sum_bytes
sum-append [] r = omega arith
sum-append (q ∷ qs) r = omega (arith, sum-append qs r)

pub In-append : (q : Row) (rows : List Row) (r : Row) → In q rows → In q (rows ++ r ∷ [])
In-append q [] r i = absurd i
In-append q (x ∷ xs) r (inl e) = inl e
In-append q (x ∷ xs) r (inr i) = inr (In-append q xs r i)

pub In-last : (rows : List Row) (r : Row) → In r (rows ++ r ∷ [])
In-last [] r = inl refl
In-last (x ∷ xs) r = inr (In-last xs r)

pub append-In : (q : Row) (rows : List Row) (r : Row) → In q (rows ++ r ∷ []) → (q ≡ r) ⊎ In q rows
append-In q [] r (inl e) = inl e
append-In q [] r (inr i) = absurd i
append-In q (x ∷ xs) r (inl e) = inr (inl e)
append-In q (x ∷ xs) r (inr i) = elim (append-In q xs r i) [ inl e ↦ inl e | inr j ↦ inr (inr j) ]

-- The row is found by its key.
pub find_key-last :
    (rows : List Row) (r : Row)
    → find_key r.idempotency_key rows ≡ none
    → find_key r.idempotency_key (rows ++ r ∷ []) ≡ some r
unfolding find_key
find_key-last [] r h = ground (arith, eq_iff r.idempotency_key r.idempotency_key)
find_key-last (q ∷ qs) r h = ground (arith, find_key-last qs r)
