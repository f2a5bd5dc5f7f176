-- ===== src/Storage/Sqlite/Purge.antt =====
-- storage/sqlite_store.py: `SQLiteStore.purge_expired` and `close`.
pub mod Transaction
pub mod Steps
pub mod Kept
use viskium.Prelude.{
  ℕ, ◌-◌, String, Option, none, some, Bool, true, false, not, ◌||◌, List, [], ◌∷◌, ltb, ◌==◌,
  length, is_some, if◌then◌else◌,
}
use viskium.Core.Value.{Value, Error, value_error, Result, ok, raise}
use viskium.Core.Receipt.{PersistenceReceipt}
use viskium.Storage.Sqlite.Database.{
  ErrorCode, Row, StateRow, Session, Answer, value, sqlite_error, integrity_error, Sql, pure,
  raise_database, refuse_if, ◌>>=◌, ◌>>◌, begin, commit, rollback, next_fault, later_faults,
}
use viskium.Storage.Sqlite.Statements.{
  select_state, decode_store_state, select_expired, sum_bytes, update_counts,
}
use viskium.Storage.Sqlite.Store.{
  StoreState, Store, is_closed, is_read_only, handle_write_error, handle_record_integrity_error,
}
use viskium.Storage.Sqlite.Put.{purge_rows}
use viskium.Storage.Sqlite.Checks.{signed_int64}

-- A report, or the error that leaves `purge_expired`.
pub data PurgeReply : Type 0 where
  report : ℕ → ℕ → PurgeReply
  closed_error read_only_error record_integrity_error : PurgeReply
  store_error : Option String → PurgeReply
  invalid : Error → PurgeReply

-- The counters after a purge, and what was deleted.
pub record Purged : Type 0 where
  pub row_count : ℕ
  pub logical_bytes : ℕ
  pub rows_deleted : ℕ
  pub bytes_deleted : ℕ

refuse_unless_one : ℕ → Sql (Unit {0})
refuse_unless_one n = if n == 1 then pure tt else raise_database

finish_purge : List Row → ℕ × ℕ → Sql (Option Purged)
unfolding update_counts refuse_unless_one commit sum_bytes
finish_purge candidates (count, bytes) = do
  updated ← update_counts count bytes
  refuse_unless_one updated
  commit
  pure (
      some (record {
        row_count = count;
        logical_bytes = bytes;
        rows_deleted = length candidates;
        bytes_deleted = sum_bytes candidates;
      }))

purge_candidates : List Row → ℕ → ℕ → Sql (Option Purged)
unfolding rollback purge_rows finish_purge
purge_candidates [] count bytes = do rollback; pure none
purge_candidates (r ∷ rs) count bytes = do
  left ← purge_rows (r ∷ rs) count bytes
  finish_purge (r ∷ rs) left

-- The body of the `try`; `row_count` and `logical_bytes` are the store's own counters.
pub purge_transaction : ℕ → ℕ → ℕ → ℕ → Sql (Option Purged)
unfolding begin select_state decode_store_state select_expired purge_candidates
purge_transaction now limit row_count logical_bytes = do
  begin
  row ← select_state
  st ← decode_store_state row
  refuse_if (not (st.row_count == row_count) || not (st.logical_bytes == logical_bytes))
  candidates ← select_expired now limit
  purge_candidates candidates st.row_count st.logical_bytes

pub error_of : Store × PersistenceReceipt → Store × PurgeReply
error_of (s, receipt) = (s, store_error receipt.reason)

-- `except SQLiteStoreIntegrityError`: the rollback may fail.
pub integrity_of : Answer (Unit {0}) → Store × PersistenceReceipt → Store × PurgeReply
integrity_of (value _) (s, receipt) = (s, record_integrity_error)
integrity_of (sqlite_error _) (s, receipt) = (s, store_error receipt.reason)
integrity_of integrity_error (s, receipt) = (s, record_integrity_error)

on_purge : Answer (Option Purged) → Store → Store × PurgeReply
unfolding error_of integrity_of handle_write_error handle_record_integrity_error rollback
on_purge (value none) s = (s, report 0 0)
on_purge (value (some p)) s = (
  record s { row_count = p.row_count; logical_bytes = p.logical_bytes },
  report p.rows_deleted p.bytes_deleted,
)
on_purge (sqlite_error code) s = error_of (handle_write_error code s)
on_purge integrity_error s = integrity_of (rollback s.session).0 (handle_record_integrity_error s)

-- `purge_expired(limit=limit)` at the time `now`.
unfoldable pub purge_expired : ℕ → Value → Store → Store × PurgeReply
unfolding signed_int64 purge_transaction on_purge
purge_expired limit now s =
    if not s.connected || is_closed s.state
    then (s, closed_error)
    else if is_read_only s.state
    then (s, read_only_error)
    else if limit == 0 || ltb s.max_purge_rows limit
    then (s, invalid value_error)
    else elim (signed_int64 0 now) [
      | raise e ↦ (s, invalid e)
      | ok n ↦
          let (answer, session) = purge_transaction n limit s.row_count s.logical_bytes s.session in
          on_purge answer (record s { session = session })
    ]

-- What the rollback in `close` leads to: where it raises, the state is left as it was.
close_connection : Answer (Unit {0}) × Session → Store → Store
close_connection (value _, session) s = record s {
  connected = false;
  session = record session { working = none };
  state = StoreState.closed;
}
close_connection (_, session) s = record s {
  connected = false;
  session = record session { working = none };
}

-- `close`; closing the connection ends an open transaction.
unfoldable pub close : Store → Store
unfolding rollback close_connection
close s =
    if is_closed s.state
    then s
    else if s.connected
    then close_connection (rollback s.session) s
    else record s { state = StoreState.closed }
