-- ===== src/Storage/Sqlite/Sound.antt =====
-- storage/sqlite_store.py: what holds of the committed tables of a store.
use viskium.Prelude.{ℕ, ◌≤◌, ◌≡◌, refl, some, List, length}
use viskium.Storage.Sqlite.Database.{Row, StateRow, Tables}
use viskium.Storage.Sqlite.Statements.{sum_bytes, without}
use viskium.Storage.Sqlite.Statements.Rows.{
  DistinctKeys, Below, without-DistinctKeys, without-Below,
}
use viskium.Storage.Sqlite.Statements.Selected.{Unique, without-Unique}

-- Rows with distinct sequences below the next one and with distinct keys, counted and summed.
pub record IsCounted (next count bytes : ℕ) (rows : List Row) : Type 0 where
  pub counted : count ≡ length rows
  pub summed : bytes ≡ sum_bytes rows
  pub unique : Unique rows
  pub keys : DistinctKeys rows
  pub below : Below next rows

pub record IsSound (max_rows max_logical_bytes : ℕ) (t : Tables) : Type 0 where
  pub row : StateRow
  pub state : t.store_state ≡ some row
  pub rows : IsCounted row.next_sequence row.row_count row.logical_bytes t.rows
  pub within_rows : row.row_count ≤ max_rows
  pub within_bytes : row.logical_bytes ≤ max_logical_bytes

-- Deletion with the right counters.
pub without-IsCounted :
    (next count bytes : ℕ) (rows ks : List Row)
    → IsCounted next count bytes rows
    → IsCounted next (length (without ks rows)) (sum_bytes (without ks rows)) (without ks rows)
without-IsCounted next count bytes rows ks h = record {
  counted = refl;
  summed = refl;
  unique = without-Unique ks rows h.unique;
  keys = without-DistinctKeys ks rows h.keys;
  below = without-Below next ks rows h.below;
}
