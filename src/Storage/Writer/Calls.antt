-- ===== src/Storage/Writer/Calls.antt =====
-- storage/writer.py: what other threads call. Each function is one critical section of `start`,
-- `submit` or `stop`, the code under one `with self._condition`.
use viskium.Prelude.{
  ℕ, ◌+◌, Option, none, some, Bool, true, false, ◌||◌, [], ◌∷◌, ◌++◌, leb, ltb, length,
  if◌then◌else◌,
}
use viskium.Storage.Writer.State.{
  WriterState, SubmissionStatus, SubmissionReason, SubmissionResult, FailureReason,
  WriterStartReport, WriterStopReport, Writer, is_running, is_stopped, discard_pending,
}

-- The first section of `_stop_serialized` returns a report, or goes on to join the thread with
-- `discarded_now` in hand.
pub data StopStep : Type 0 where
  returned : WriterStopReport → StopStep
  joining : ℕ → StopStep

-- The `.get(self._state, "writer_closed")` of `submit`.
abbrev closed_reason : WriterState → SubmissionReason
closed_reason WriterState.new = SubmissionReason.writer_not_started
closed_reason WriterState.draining = SubmissionReason.writer_draining
closed_reason WriterState.stopped = SubmissionReason.writer_stopped
closed_reason WriterState.failed = SubmissionReason.writer_failed
closed_reason WriterState.stuck = SubmissionReason.writer_stuck
closed_reason WriterState.running = SubmissionReason.writer_closed

module _ {A : Type 0} where
  abbrev start_report : Writer A → WriterStartReport
  start_report w = record { state = w.state; ready = is_running w.state; reason = w.failure_reason }

  -- The first section of `start`; `none` is its RuntimeError.
  unfoldable pub start_begin : Writer A → Option (Writer A)
  start_begin w = elim w.state [
    | WriterState.new ↦ if w.thread then none else some (record w { thread = true })
    | _ ↦ none
  ]

  -- `start` after `_ready.wait`, which returned `signalled`.
  unfoldable pub start_end : Bool → Writer A → Writer A × WriterStartReport
  start_end true w = (w, start_report w)
  start_end false w =
      if w.ready
      then (w, start_report w)
      else let w' : Writer A = record w {
        state = WriterState.stuck;
        failure_reason = some FailureReason.factory_ready_timeout;
        stop_requested = true;
      } in
        (w', record { state = w'.state; ready = false; reason = w'.failure_reason })

  reject : SubmissionStatus → SubmissionReason → Writer A → Writer A × SubmissionResult
  reject status reason w = (
    record w { rejected_count = w.rejected_count + 1 },
    record { status = status; reason = some reason; canonical_bytes = 0 },
  )

  enqueue : A → ℕ → Writer A → Writer A × SubmissionResult
  enqueue o bytes w = (
    record w {
      queue = w.queue ++ record { observation = o; canonical_bytes = bytes } ∷ [];
      pending_bytes = w.pending_bytes + bytes;
      queued_count = w.queued_count + 1;
    },
    record { status = SubmissionStatus.queued; reason = none; canonical_bytes = bytes },
  )

  -- The last section of `submit`, for an observation that was measured.
  submit_measured : A → ℕ → Writer A → Writer A × SubmissionResult
  unfolding reject enqueue
  submit_measured o bytes w =
      if is_running w.state
      then if leb w.max_pending_count (length w.queue)
        then reject SubmissionStatus.rejected SubmissionReason.pending_count_limit_reached w
        else if ltb w.max_pending_bytes (w.pending_bytes + bytes)
        then reject SubmissionStatus.rejected SubmissionReason.pending_byte_limit_reached w
        else enqueue o bytes w
      else reject SubmissionStatus.closed (closed_reason w.state) w

  -- What `submit` is given: `none` stands for an object that is no ObservationEnvelope, and
  -- `size o limit` for `observation_size(o, stop_after=limit)`, `none` also where that raises.
  unfoldable pub submit : (A → ℕ → Option ℕ) → Option A → Writer A → Writer A × SubmissionResult
  unfolding reject submit_measured
  submit size none w = reject SubmissionStatus.rejected SubmissionReason.observation_required w
  submit size (some o) w = elim (size o w.max_pending_bytes) [
    | none ↦
        reject SubmissionStatus.rejected SubmissionReason.observation_exceeds_pending_byte_limit w
    | some bytes ↦ submit_measured o bytes w
  ]

  begin_drain : Bool → Writer A → Writer A
  begin_drain drain w = record w {
    state = WriterState.draining;
    stop_requested = true;
    drain_requested = drain;
  }

  repeat_stop : Bool → Writer A → Writer A
  repeat_stop drain w = record w { stop_requested = true; drain_requested = drain }

  -- Where a thread exists: the new state, and `discarded_now`.
  stop_thread : Bool → Writer A → Writer A × ℕ
  unfolding discard_pending begin_drain repeat_stop
  stop_thread drain w = elim w.state [
    | WriterState.running ↦
        if drain
        then (begin_drain true w, 0)
        else (discard_pending (begin_drain false w), length w.queue)
    | WriterState.draining ↦ (w, 0)
    | _ ↦ (repeat_stop drain w, 0)
  ]

  stop_report : Bool → ℕ → Option FailureReason → Writer A → WriterStopReport
  stop_report clean n reason w = record {
    state = w.state;
    clean = clean;
    discarded = n;
    reason = reason;
  }

  stop_unstarted : Writer A → Writer A × StopStep
  unfolding stop_report
  stop_unstarted w = elim w.state [
    | WriterState.new ↦
        let w' : Writer A = record w { state = WriterState.stopped } in
        (w', returned (stop_report true 0 none w'))
    | _ ↦ (w, returned (stop_report false 0 w.failure_reason w))
  ]

  unfoldable pub stop_begin : Bool → Writer A → Writer A × StopStep
  unfolding stop_report stop_unstarted stop_thread
  stop_begin drain w =
      if is_stopped w.state
      then (w, returned (stop_report true 0 none w))
      else if w.thread
      then (let (w', n) = stop_thread drain w in (w', joining n))
      else stop_unstarted w

  -- The last section of `_stop_serialized`, after a join that left the thread alive or not.
  unfoldable pub stop_end : Bool → ℕ → Writer A → Writer A × WriterStopReport
  unfolding stop_report
  stop_end alive discarded_now w =
      if alive
      then (let w' : Writer A = record w {
        state = WriterState.stuck;
        failure_reason = some FailureReason.stop_timeout;
        retained_store = w.active_store || w.retained_store;
      } in
          (w', stop_report false discarded_now w'.failure_reason w'))
      else (w, stop_report (is_stopped w.state) discarded_now w.failure_reason w)
