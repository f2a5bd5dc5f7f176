-- ===== src/Storage/Sqlite/Store.antt =====
-- storage/sqlite_store.py: the fields of `SQLiteStore`, and what it does with errors. Its methods are
-- called by the thread that owns it.
use viskium.Prelude.{ℕ, String, Option, none, some, Bool, true, false, if◌then◌else◌}
use viskium.Core.Receipt.{PersistenceStatus, PersistenceReceipt}
use viskium.Storage.Sqlite.Database.{
  ErrorCode, Session, Answer, value, sqlite_error, integrity_error, Sql, rollback,
}

pub data StoreState : Type 0 where
  healthy read_only closed : StoreState

-- `connected` is `_connection is not None`.
pub record Store : Type 0 where
  pub max_rows : ℕ
  pub max_logical_bytes : ℕ
  pub max_observation_bytes : ℕ
  pub volume_reserve_bytes : ℕ
  pub max_purge_rows : ℕ
  pub state : StoreState
  pub reason : Option String
  pub row_count : ℕ
  pub logical_bytes : ℕ
  pub connected : Bool
  pub session : Session

abbrev pub is_closed : StoreState → Bool
is_closed StoreState.closed = true
is_closed _ = false

abbrev pub is_read_only : StoreState → Bool
is_read_only StoreState.read_only = true
is_read_only _ = false

abbrev pub refusal : PersistenceStatus → String → Option ℕ → PersistenceReceipt
refusal status reason sequence = record {
  status = status;
  reason = some reason;
  store_sequence = sequence;
  bytes_accepted = 0;
}

abbrev pub rejected : String → PersistenceReceipt
rejected reason = refusal PersistenceStatus.rejected reason none

abbrev pub failed : String → PersistenceReceipt
failed reason = refusal PersistenceStatus.failed reason none

-- `_latch_read_only`
unfoldable pub latch_read_only : String → Store → Store
latch_read_only reason s =
    if is_closed s.state then s else record s { state = StoreState.read_only; reason = some reason }

unfoldable pub latch : String → Store → Store × PersistenceReceipt
unfolding latch_read_only
latch reason s = (latch_read_only reason s, failed reason)

-- What `_handle_write_error` answers to each code, once the transaction was rolled back.
unfoldable pub on_code : ErrorCode → Store → Store × PersistenceReceipt
unfolding latch
on_code ErrorCode.full s = latch "sqlite_full" s
on_code ErrorCode.ioerr s = latch "sqlite_io_error" s
on_code ErrorCode.corrupt s = latch "sqlite_corrupt" s
on_code ErrorCode.notadb s = latch "sqlite_corrupt" s
on_code ErrorCode.readonly s = latch "sqlite_read_only" s
on_code ErrorCode.cantopen s = latch "sqlite_read_only" s
on_code ErrorCode.busy s = (s, failed "sqlite_busy")
on_code ErrorCode.locked s = (s, failed "sqlite_busy")
on_code ErrorCode.other s = latch "sqlite_database_error" s

unfoldable pub after_rollback :
    (Store → Store × PersistenceReceipt) → Answer (Unit {0}) → Store → Store × PersistenceReceipt
unfolding latch
after_rollback k (value _) s = k s
after_rollback k _ s = latch "rollback_failed" s

-- `_handle_write_error`
unfoldable pub handle_write_error : ErrorCode → Store → Store × PersistenceReceipt
unfolding on_code after_rollback rollback
handle_write_error code s =
    let (answer, session) = rollback s.session in
    after_rollback (on_code code) answer (record s { session = session })

-- `_handle_record_integrity_error`
unfoldable pub handle_record_integrity_error : Store → Store × PersistenceReceipt
unfolding latch after_rollback rollback
handle_record_integrity_error s =
    let (answer, session) = rollback s.session in
    after_rollback (latch "record_integrity_error") answer (record s { session = session })

unfoldable pub on_answer :
    {A : Type 0}
    → (A → Store → Store × PersistenceReceipt)
    → Answer A
    → Store
    → Store × PersistenceReceipt
unfolding handle_write_error handle_record_integrity_error
on_answer k (value a) s = k a s
on_answer k (sqlite_error code) s = handle_write_error code s
on_answer k integrity_error s = handle_record_integrity_error s

-- A `try` whose handlers answer both kinds of error.
unfoldable pub guarded :
    {A : Type 0}
    → Sql A
    → (A → Store → Store × PersistenceReceipt)
    → Store
    → Store × PersistenceReceipt
unfolding on_answer
guarded m k s =
    let (answer, session) = m s.session in on_answer k answer (record s { session = session })
