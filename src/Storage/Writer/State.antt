-- ===== src/Storage/Writer/State.antt =====
-- storage/writer.py: the types of the module, and the fields of `ObservationWriter`.
use viskium.Prelude.{
  ℕ, ◌+◌, String, Option, none, some, Bool, true, false, ◌||◌, List, [], ◌==◌, length,
  if◌then◌else◌,
}
use viskium.Core.Receipt.{PersistenceStatus}

pub data WriterState : Type 0 where
  new running draining stopped failed stuck : WriterState

pub data SubmissionStatus : Type 0 where
  queued rejected closed : SubmissionStatus

pub data SubmissionReason : Type 0 where
  observation_required observation_exceeds_pending_byte_limit : SubmissionReason
  pending_count_limit_reached pending_byte_limit_reached : SubmissionReason
  writer_not_started writer_draining writer_stopped writer_failed writer_stuck : SubmissionReason
  writer_closed : SubmissionReason

pub record SubmissionResult : Type 0 where
  pub status : SubmissionStatus
  pub reason : Option SubmissionReason
  pub canonical_bytes : ℕ

-- `_failure_reason`; the text is `type(error).__name__`.
pub data FailureReason : Type 0 where
  factory_ready_timeout stop_timeout : FailureReason
  store_factory_failed store_put_failed store_close_failed : String → FailureReason

pub record WriterStartReport : Type 0 where
  pub state : WriterState
  pub ready : Bool
  pub reason : Option FailureReason

pub record WriterStopReport : Type 0 where
  pub state : WriterState
  pub clean : Bool
  pub discarded : ℕ
  pub reason : Option FailureReason

pub record WriterReceiptMetadata : Type 0 where
  pub status : PersistenceStatus
  pub reason : Option String
  pub store_sequence : Option ℕ
  pub bytes_accepted : ℕ
  pub submitted_bytes : ℕ

pub record Pending (A : Type 0) : Type 0 where
  pub observation : A
  pub canonical_bytes : ℕ

-- The fields that `__init__` sets. `thread` is `_thread is not None`; the factory makes one store,
-- so `active_store` and `retained_store` say whether the field holds it.
pub record Writer (A : Type 0) : Type 0 where
  pub max_pending_count : ℕ
  pub max_pending_bytes : ℕ
  pub receipt_history_limit : ℕ
  pub ready : Bool
  pub queue : List (Pending A)
  pub recent : List WriterReceiptMetadata
  pub thread : Bool
  pub active_store : Bool
  pub retained_store : Bool
  pub state : WriterState
  pub failure_reason : Option FailureReason
  pub stop_requested : Bool
  pub drain_requested : Bool
  pub in_flight : Bool
  pub pending_bytes : ℕ
  pub queued_count : ℕ
  pub rejected_count : ℕ
  pub persisted_accepted : ℕ
  pub persisted_coalesced : ℕ
  pub persisted_rejected : ℕ
  pub persisted_failed : ℕ
  pub discarded : ℕ

abbrev pub fresh_writer : {A : Type 0} → ℕ → ℕ → ℕ → Writer A
fresh_writer count bytes limit = record {
  max_pending_count = count;
  max_pending_bytes = bytes;
  receipt_history_limit = limit;
  ready = false;
  queue = [];
  recent = [];
  thread = false;
  active_store = false;
  retained_store = false;
  state = WriterState.new;
  failure_reason = none;
  stop_requested = false;
  drain_requested = false;
  in_flight = false;
  pending_bytes = 0;
  queued_count = 0;
  rejected_count = 0;
  persisted_accepted = 0;
  persisted_coalesced = 0;
  persisted_rejected = 0;
  persisted_failed = 0;
  discarded = 0;
}

-- `__init__`: `none` is the ValueError of `_positive_integer`.
unfoldable pub make_writer : {A : Type 0} → ℕ → ℕ → ℕ → Option (Writer A)
make_writer count bytes limit =
    if count == 0 || bytes == 0 || limit == 0 then none else some (fresh_writer count bytes limit)

abbrev pub is_running : WriterState → Bool
is_running WriterState.running = true
is_running _ = false

abbrev pub is_stopped : WriterState → Bool
is_stopped WriterState.stopped = true
is_stopped _ = false

module _ {A : Type 0} where
  -- `_discard_pending_locked`.
  unfoldable pub discard_pending : Writer A → Writer A
  discard_pending w = record w {
    discarded = w.discarded + length w.queue;
    queue = [];
    pending_bytes = 0;
  }
