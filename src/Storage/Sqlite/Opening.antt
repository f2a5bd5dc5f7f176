-- ===== src/Storage/Sqlite/Opening.antt =====
-- storage/sqlite_store.py: `SQLiteStore.__init__`, behind the checks of the path, and without the
-- settings of the connection (`_configure_connection`).
pub mod Arguments
pub mod Counters
pub mod Verified
use viskium.Prelude.{
  ℕ, String, Option, none, some, Bool, true, false, not, ◌||◌, List, [], ◌∷◌, ltb, leb, ◌==◌, max,
  length, if◌then◌else◌,
}
use viskium.Core.Value.{Value, Error, type_error, value_error, Result, ok, raise}
use viskium.Storage.Sqlite.Database.{
  Row, StateRow, Tables, Session, Answer, value, sqlite_error, integrity_error, Sql, pure,
  raise_integrity, refuse_if, ◌>>=◌, ◌>>◌, query, change, begin, commit, rollback,
}
use viskium.Storage.Sqlite.Statements.{max_int64, select_state, sum_bytes}
use viskium.Storage.Sqlite.Store.{StoreState, Store}
use viskium.Storage.Sqlite.Checks.{signed_int64}
use viskium.Storage.Sqlite.Opening.Arguments.{Options, Limits, check_options}

-- The tables that the file has; `store_tables` are the required ones, and say whether the row of
-- `store_meta` has the kind and the version of this code.
pub data Found : Type 0 where
  no_tables other_tables : Found
  store_tables : Bool → Found

-- `TypeError` and `ValueError` of the arguments leave the constructor as they are, and so does a
-- `TypeError` of the clock; every other error is a `SQLiteStoreError`.
pub data OpenReply : Type 0 where
  opened : Store → OpenReply
  store_error : OpenReply
  invalid : Error → OpenReply

-- `CREATE TABLE` and `CREATE INDEX`, and the insert into `store_meta`.
create_object : Sql (Unit {0})
create_object = change λ t. some (tt, t)

insert_state : Sql (Unit {0})
insert_state = change λ t. some (
  tt,
  record t { store_state = some (record { next_sequence = 1; row_count = 0; logical_bytes = 0 }) },
)

create_tables : Sql (Unit {0})
unfolding create_object insert_state
create_tables = do
  begin
  create_object
  create_object
  create_object
  create_object
  create_object
  create_object
  insert_state
  commit

-- An error is raised again after the rollback, if that does not raise another.
raise_after : Answer (Unit {0}) → Sql (Unit {0})
unfolding rollback
raise_after (value _) s = (value tt, s)
raise_after (sqlite_error code) s = let (_, session) = rollback s in (sqlite_error code, session)
raise_after integrity_error s = (integrity_error, s)

-- The end of `_create_schema`, behind the reading of the clock.
create_schema : Sql (Unit {0})
unfolding create_tables raise_after
create_schema s = let (answer, session) = create_tables s in raise_after answer session

-- `COALESCE(MAX(store_sequence), 0)`
unfoldable pub max_sequence : List Row → ℕ
max_sequence [] = 0
max_sequence (r ∷ rs) = max r.store_sequence (max_sequence rs)

-- An integer that `_signed_int64` refuses.
abbrev pub is_out_of_range : StateRow → List Row → Bool
unfolding sum_bytes max_sequence
is_out_of_range st rows =
    ltb st.next_sequence 1
    || ltb max_int64 st.next_sequence
    || ltb max_int64 st.row_count
    || ltb max_int64 st.logical_bytes
    || ltb max_int64 (length rows)
    || ltb max_int64 (sum_bytes rows)
    || ltb max_int64 (max_sequence rows)

-- The checks of `_load_and_verify_counters`, on the counters and on the table's own count, sum and
-- maximum.
verify_counters : Limits → StateRow → List Row → Sql (ℕ × ℕ)
unfolding sum_bytes max_sequence
verify_counters limits st rows = do
  refuse_if (is_out_of_range st rows)
  refuse_if (not (st.row_count == length rows) || not (st.logical_bytes == sum_bytes rows))
  refuse_if (leb st.next_sequence (max_sequence rows))
  refuse_if (ltb limits.max_rows st.row_count || ltb limits.max_logical_bytes st.logical_bytes)
  pure (st.row_count, st.logical_bytes)

verify_found : Limits → Option StateRow → List Row → Sql (ℕ × ℕ)
unfolding verify_counters
verify_found limits none rows = raise_integrity
verify_found limits (some st) rows = verify_counters limits st rows

-- `_load_and_verify_counters`
pub load_counters : Limits → Sql (ℕ × ℕ)
unfolding select_state verify_found
load_counters limits = do
  state ← select_state
  rows ← query (λ t. t.rows)
  verify_found limits state rows

-- `_initialize_or_verify_schema` where it does not create the tables.
verify_schema : Bool → Sql (Unit {0})
verify_schema supported = do found ← query (λ _. supported); refuse_if (not found)

store_of : Limits → ℕ × ℕ → Session → Store
store_of limits (row_count, logical_bytes) session = record {
  max_rows = limits.max_rows;
  max_logical_bytes = limits.max_logical_bytes;
  max_observation_bytes = limits.max_observation_bytes;
  volume_reserve_bytes = limits.volume_reserve_bytes;
  max_purge_rows = limits.max_purge_rows;
  state = StoreState.healthy;
  reason = none;
  row_count = row_count;
  logical_bytes = logical_bytes;
  connected = true;
  session = session;
}

reply : Limits → Answer (ℕ × ℕ) × Session → OpenReply
unfolding store_of
reply limits (value counters, session) = opened (store_of limits counters session)
reply limits (_, session) = store_error

-- The statements of `__init__` behind the query of the tables' names.
open_found : Limits → Value → Found → Session → OpenReply
unfolding signed_int64 create_schema verify_schema load_counters reply
open_found limits now other_tables s = store_error
open_found limits now (store_tables supported) s =
    reply limits ((verify_schema supported >> load_counters limits) s)
open_found limits now no_tables s = elim (signed_int64 0 now) [
  | raise type_error ↦ invalid type_error
  | raise _ ↦ store_error
  | ok _ ↦ reply limits ((create_schema >> load_counters limits) s)
]

on_names : Limits → Value → Answer Found × Session → OpenReply
unfolding open_found
on_names limits now (value found, s) = open_found limits now found s
on_names limits now (_, s) = store_error

-- `SQLiteStore(...)` on a file that has the tables `found`, where the clock reads `now`.
unfoldable pub open_store : Options → Value → Found → Session → OpenReply
unfolding check_options on_names
open_store options now found s = elim (check_options options) [
  | raise e ↦ invalid e
  | ok limits ↦ on_names limits now (query (λ _. found) s)
]
