-- ===== src/Storage/Sqlite/Statements.antt =====
-- storage/sqlite_store.py: the statements, and the checks of what they return. Integers that a
-- STRICT table with its CHECK constraints holds are not negative.
pub mod Selected
pub mod Rows
pub mod Added
use text.Mathlib.Text.{◌==◌ as str_eq}
use Prim.Native.Char.{code}
use viskium.Prelude.{
  ℕ, zero, suc, ◌+◌, ◌-◌, ◌^◌, String, Option, none, some, Bool, true, false, not, ◌&&◌, ◌||◌, List,
  [], ◌∷◌, ◌++◌, ltb, leb, ◌==◌, length, if◌then◌else◌,
}
use viskium.Storage.Sqlite.Database.{
  Row, StateRow, Tables, Sql, pure, raise_integrity, refuse_if, ◌>>=◌, ◌>>◌, query, change,
}

abbrev pub max_int64 : ℕ
max_int64 = 2 ^ 63 - 1

unfoldable pub same_bytes : List ℕ → List ℕ → Bool
same_bytes [] [] = true
same_bytes (x ∷ xs) (y ∷ ys) = x == y && same_bytes xs ys
same_bytes _ _ = false

abbrev pub take : ℕ → List ℕ → List ℕ
take zero xs = []
take (suc n) [] = []
take (suc n) (x ∷ xs) = x ∷ take n xs

abbrev pub take_rows : ℕ → List Row → List Row
take_rows zero xs = []
take_rows (suc n) [] = []
take_rows (suc n) (x ∷ xs) = x ∷ take_rows n xs

unfoldable pub find_key : String → List Row → Option Row
find_key key [] = none
find_key key (r ∷ rs) = if str_eq r.idempotency_key key then some r else find_key key rs

-- `SELECT store_sequence, substr(document_sha256, 1, 33) … WHERE idempotency_key=?`
unfoldable pub select_duplicate : String → Sql (Option (ℕ × List ℕ))
unfolding find_key
select_duplicate key = query λ t. elim (find_key key t.rows) [
  | none ↦ none
  | some r ↦ some (r.store_sequence, take 33 r.document_sha256)
]

-- `_decode_duplicate`
unfoldable pub decode_duplicate : ℕ × List ℕ → Sql (ℕ × List ℕ)
decode_duplicate (sequence, digest) = do
  refuse_if (ltb sequence 1 || ltb max_int64 sequence || not (length digest == 32))
  pure (sequence, digest)

unfoldable pub select_state : Sql (Option StateRow)
select_state = query λ t. t.store_state

-- `_decode_store_state`
unfoldable pub decode_store_state : Option StateRow → Sql StateRow
decode_store_state none = raise_integrity
decode_store_state (some st) = do
  refuse_if (
      ltb st.next_sequence 1
      || ltb max_int64 st.next_sequence
      || ltb max_int64 st.row_count
      || ltb max_int64 st.logical_bytes)
  pure st

unfoldable pub is_expired : ℕ → Row → Bool
is_expired now r = leb r.expires_unix_ns now

-- The order of `ORDER BY expires_unix_ns, store_sequence`.
comes_first : Row → Row → Bool
comes_first r q =
    if ltb r.expires_unix_ns q.expires_unix_ns
    then true
    else r.expires_unix_ns == q.expires_unix_ns && leb r.store_sequence q.store_sequence

insert_by_expiry : Row → List Row → List Row
unfolding comes_first
insert_by_expiry r [] = r ∷ []
insert_by_expiry r (q ∷ qs) = if comes_first r q then r ∷ q ∷ qs else q ∷ insert_by_expiry r qs

unfoldable pub expired_rows : ℕ → List Row → List Row
unfolding insert_by_expiry is_expired
expired_rows now [] = []
expired_rows now (r ∷ rs) =
    let rest = expired_rows now rs in if is_expired now r then insert_by_expiry r rest else rest

-- `SELECT … WHERE expires_unix_ns <= ? ORDER BY expires_unix_ns, store_sequence LIMIT ?`
unfoldable pub select_expired : ℕ → ℕ → Sql (List Row)
unfolding expired_rows
select_expired now limit = query λ t. take_rows limit (expired_rows now t.rows)

unfoldable pub has_sequence : ℕ → List Row → Bool
has_sequence n [] = false
has_sequence n (r ∷ rs) = r.store_sequence == n || has_sequence n rs

unfoldable pub sum_bytes : List Row → ℕ
sum_bytes [] = 0
sum_bytes (r ∷ rs) = r.logical_bytes + sum_bytes rs

-- The loop of `_decode_purge_candidates`, over the rows from the last; it raises on the same lists.
unfoldable pub are_candidates : List Row → Bool
unfolding has_sequence sum_bytes
are_candidates [] = true
are_candidates (r ∷ rs) =
    leb 1 r.store_sequence
    && leb r.store_sequence max_int64
    && leb 1 r.logical_bytes
    && leb (r.logical_bytes + sum_bytes rs) max_int64
    && not (has_sequence r.store_sequence rs)
    && are_candidates rs

-- What `DELETE … WHERE store_sequence IN (…)` leaves.
unfoldable pub without : List Row → List Row → List Row
unfolding has_sequence
without candidates [] = []
without candidates (r ∷ rs) =
    let rest = without candidates rs in
    if has_sequence r.store_sequence candidates then rest else r ∷ rest

-- The answer is `cursor.rowcount`.
unfoldable pub delete : List Row → Sql ℕ
unfolding without
delete candidates = change λ t.
    let left = without candidates t.rows in
    some (length t.rows - length left, record t { rows = left })

-- `length(x)` of SQL ends before a NUL.
unfoldable pub sql_length : String → ℕ
sql_length String.[] = 0
sql_length (String.◌∷◌ c s) = if code c == 0 then 0 else suc (sql_length s)

abbrev is_identifier : String → Bool
unfolding sql_length
is_identifier s = leb 1 (sql_length s) && leb (sql_length s) 256

-- The constraints of `observations` that a row of the store's own could break.
unfoldable pub allows : List Row → Row → Bool
unfolding sql_length has_sequence find_key
allows rs r =
    leb 1 r.store_sequence
    && is_identifier r.idempotency_key
    && is_identifier r.session_id
    && leb r.stored_unix_ns r.expires_unix_ns
    && leb 1 r.logical_bytes
    && length r.document_sha256 == 32
    && not (has_sequence r.store_sequence rs)
    && (elim (find_key r.idempotency_key rs) [ none ↦ true | some _ ↦ false ])

unfoldable pub insert : Row → Sql (Unit {0})
insert r =
    change λ t. if allows t.rows r then some (tt, record t { rows = t.rows ++ r ∷ [] }) else none

-- The answer is `cursor.rowcount`.
unfoldable pub update_state : StateRow → Sql ℕ
update_state st = change λ t. elim t.store_state [
  | none ↦ some (0, t)
  | some _ ↦ some (1, record t { store_state = some st })
]

-- `UPDATE store_state SET row_count=?, logical_bytes=?`
unfoldable pub update_counts : ℕ → ℕ → Sql ℕ
update_counts count bytes = change λ t. elim t.store_state [
  | none ↦ some (0, t)
  | some st ↦
      some (
        1,
        record t { store_state = some (record st { row_count = count; logical_bytes = bytes }) },
      )
]
