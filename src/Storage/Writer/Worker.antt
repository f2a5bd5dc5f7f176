-- ===== src/Storage/Writer/Worker.antt =====
-- storage/writer.py: the worker. Each function is one critical section of `_run`.
use viskium.Prelude.{
  ℕ, ◌+◌, ◌-◌, String, Option, none, some, Bool, true, false, ◌||◌, List, [], ◌∷◌, ◌++◌, ltb,
  length, if◌then◌else◌,
}
use viskium.Core.Receipt.{PersistenceStatus, PersistenceReceipt}
use viskium.Storage.Writer.State.{
  WriterState, FailureReason, WriterReceiptMetadata, Pending, Writer, discard_pending,
}

-- What the worker finds when it wakes: an observation to put, the end of its loop, or nothing.
pub data Wakeup (A : Type 0) : Type 0 where
  put : Pending A → Wakeup A
  leave : Wakeup A
  wait : Wakeup A

-- `deque(maxlen=limit).append`, for a positive limit.
unfoldable pub push_recent :
    ℕ → List WriterReceiptMetadata → WriterReceiptMetadata → List WriterReceiptMetadata
push_recent limit [] x = x ∷ []
push_recent limit (y ∷ ys) x =
    if ltb (length (y ∷ ys)) limit then y ∷ ys ++ x ∷ [] else ys ++ x ∷ []

abbrev pub receipt_metadata : PersistenceReceipt → ℕ → WriterReceiptMetadata
receipt_metadata r bytes = record {
  status = r.status;
  reason = r.reason;
  store_sequence = r.store_sequence;
  bytes_accepted = r.bytes_accepted;
  submitted_bytes = bytes;
}

module _ {A : Type 0} where
  count_status : PersistenceStatus → Writer A → Writer A
  count_status PersistenceStatus.accepted w = record w {
    persisted_accepted = w.persisted_accepted + 1;
  }
  count_status PersistenceStatus.coalesced w = record w {
    persisted_coalesced = w.persisted_coalesced + 1;
  }
  count_status PersistenceStatus.rejected w = record w {
    persisted_rejected = w.persisted_rejected + 1;
  }
  count_status _ w = record w { persisted_failed = w.persisted_failed + 1 }

  -- `_record_receipt`.
  record_receipt : PersistenceReceipt → ℕ → Writer A → Writer A
  unfolding push_recent count_status
  record_receipt r bytes w =
      let counted : Writer A = count_status r.status w in
      record counted {
        recent = push_recent w.receipt_history_limit w.recent (receipt_metadata r bytes);
      }

  -- The sections of `_run`: the factory raised, or made no store.
  unfoldable pub factory_failed : String → Writer A → Writer A
  unfolding discard_pending
  factory_failed error w = record (discard_pending w) {
    state = WriterState.failed;
    failure_reason = some (FailureReason.store_factory_failed error);
    ready = true;
  }

  -- The store is there.
  unfoldable pub store_ready : Writer A → Writer A
  store_ready w = elim w.state [
    | WriterState.stuck ↦ record w { active_store = true; ready = true }
    | _ ↦
        if w.stop_requested
        then record w { active_store = true; ready = true; state = WriterState.draining }
        else record w { active_store = true; ready = true; state = WriterState.running }
  ]

  pop_left : List (Pending A) → Writer A → Writer A × Wakeup A
  pop_left [] w = (w, if w.stop_requested then leave else wait)
  pop_left (p ∷ rest) w = (
    record w {
      queue = rest;
      pending_bytes = w.pending_bytes - p.canonical_bytes;
      in_flight = true;
    },
    put p,
  )

  -- `wait_for` and the tests behind it.
  unfoldable pub next : Writer A → Writer A × Wakeup A
  unfolding pop_left
  next w = pop_left w.queue w

  -- `store.put` raised, or returned no receipt.
  unfoldable pub put_failed : String → Writer A → Writer A
  unfolding discard_pending
  put_failed error w = record (discard_pending w) {
    in_flight = false;
    persisted_failed = w.persisted_failed + 1;
    state = WriterState.failed;
    failure_reason = some (FailureReason.store_put_failed error);
  }

  -- `store.put` returned; true where the loop breaks.
  unfoldable pub put_done : PersistenceReceipt → ℕ → Writer A → Writer A × Bool
  unfolding record_receipt
  put_done r bytes w = (
    record_receipt r bytes (record w { in_flight = false }),
    elim w.drain_requested [ true ↦ false | false ↦ w.stop_requested ],
  )

  closed_state : Option String → Writer A → Writer A
  closed_state (some error) w = record w {
    state = WriterState.failed;
    failure_reason = some (FailureReason.store_close_failed error);
  }
  closed_state none w = elim w.state [
    | WriterState.failed ↦ w
    | WriterState.stuck ↦ w
    | _ ↦ record w { state = WriterState.stopped }
  ]

  -- The `finally` of `_run` after `store.close`; `store` is `store is not None`.
  unfoldable pub run_end : Bool → Option String → Writer A → Writer A
  unfolding closed_state
  run_end store close_failure w =
      let settled : Writer A = elim w.state [
        | WriterState.stuck ↦ record w { retained_store = store || w.retained_store }
        | _ ↦ closed_state close_failure w
      ] in
      record settled { in_flight = false; active_store = false; ready = true }
