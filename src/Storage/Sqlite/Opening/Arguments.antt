-- ===== src/Storage/Sqlite/Opening/Arguments.antt =====
-- storage/sqlite_store.py: the limits that `SQLiteStore.__init__` is given.
use Prim.Native.Nat.{◌/◌}
use viskium.Prelude.{ℕ, suc, ◌*◌, min, Option, none, some, ltb}
use viskium.Core.Value.{Value, natural, value_error, Result, ok, raise, refuse_if, ◌>>=◌, ◌>>◌}

-- `_positive_integer`
unfoldable pub positive_integer : Value → Result ℕ
positive_integer (natural (suc n)) = ok (suc n)
positive_integer _ = raise value_error

non_negative_integer : Value → Result ℕ
non_negative_integer (natural n) = ok n
non_negative_integer _ = raise value_error

-- The arguments of the constructor, of which `max_logical_bytes` may be None.
pub record Options : Type 0 where
  pub max_rows : Value
  pub max_db_bytes : Value
  pub max_logical_bytes : Option Value
  pub max_observation_bytes : Value
  pub volume_reserve_bytes : Value
  pub busy_timeout_ms : Value
  pub max_query_rows : Value
  pub max_query_bytes : Value
  pub max_purge_rows : Value

pub record Limits : Type 0 where
  pub max_rows : ℕ
  pub max_logical_bytes : ℕ
  pub max_observation_bytes : ℕ
  pub volume_reserve_bytes : ℕ
  pub max_purge_rows : ℕ

abbrev default_max_logical_bytes : ℕ
default_max_logical_bytes = 128 * 1_024 * 1_024

abbrev page_size : ℕ
page_size = 4_096

logical_limit : Option Value → ℕ → Value
logical_limit none max_db_bytes = natural (min default_max_logical_bytes ((max_db_bytes * 2) / 3))
logical_limit (some v) max_db_bytes = v

-- The checks of the limits, in their order.
unfoldable pub check_options : Options → Result Limits
unfolding positive_integer non_negative_integer logical_limit
check_options o = do
  max_rows ← positive_integer o.max_rows
  max_db_bytes ← positive_integer o.max_db_bytes
  max_logical_bytes ← positive_integer (logical_limit o.max_logical_bytes max_db_bytes)
  refuse_if (ltb max_db_bytes max_logical_bytes)
  max_observation_bytes ← positive_integer o.max_observation_bytes
  volume_reserve_bytes ← non_negative_integer o.volume_reserve_bytes
  _ ← positive_integer o.busy_timeout_ms
  _ ← positive_integer o.max_query_rows
  _ ← positive_integer o.max_query_bytes
  max_purge_rows ← positive_integer o.max_purge_rows
  refuse_if (ltb max_db_bytes (page_size * 8))
  ok (record {
    max_rows = max_rows;
    max_logical_bytes = max_logical_bytes;
    max_observation_bytes = max_observation_bytes;
    volume_reserve_bytes = volume_reserve_bytes;
    max_purge_rows = max_purge_rows;
  })
