-- ===== src/Storage/Sqlite/Statements/Rows.antt =====
-- storage/sqlite_store.py: the keys and the sequences of the rows of a table.
use text.Mathlib.Text.{◌==◌ as str_eq}
use viskium.Prelude.{String, ℕ, ◌<◌, ◌≡◌, false, List, [], ◌∷◌, if_rule}
use viskium.Storage.Sqlite.Database.{Row}
use viskium.Storage.Sqlite.Statements.{has_sequence, without}

-- A key that no row has, and the rows that share none.
abbrev pub Absent : String → List Row → Type 0
Absent key [] = Unit {0}
Absent key (r ∷ rs) = (str_eq r.idempotency_key key ≡ false) × Absent key rs

abbrev pub DistinctKeys : List Row → Type 0
DistinctKeys [] = Unit {0}
DistinctKeys (r ∷ rs) = Absent r.idempotency_key rs × DistinctKeys rs

-- The sequences lie below a number.
abbrev pub Below : ℕ → List Row → Type 0
Below n [] = Unit {0}
Below n (r ∷ rs) = (r.store_sequence < n) × Below n rs

without-Absent :
    (key : String) (ks rows : List Row) → Absent key rows → Absent key (without ks rows)
unfolding without
without-Absent key ks [] h = h
without-Absent key ks (r ∷ rs) h =
    if_rule (Absent key) (has_sequence r.store_sequence ks) (λ _. without-Absent key ks rs h.1)
      (λ _. (h.0, without-Absent key ks rs h.1))

pub without-DistinctKeys : (ks rows : List Row) → DistinctKeys rows → DistinctKeys (without ks rows)
unfolding without
without-DistinctKeys ks [] h = h
without-DistinctKeys ks (r ∷ rs) h =
    if_rule DistinctKeys (has_sequence r.store_sequence ks) (λ _. without-DistinctKeys ks rs h.1)
      (λ _. (without-Absent r.idempotency_key ks rs h.0, without-DistinctKeys ks rs h.1))

pub without-Below : (n : ℕ) (ks rows : List Row) → Below n rows → Below n (without ks rows)
unfolding without
without-Below n ks [] h = h
without-Below n ks (r ∷ rs) h =
    if_rule (Below n) (has_sequence r.store_sequence ks) (λ _. without-Below n ks rs h.1)
      (λ _. (h.0, without-Below n ks rs h.1))
