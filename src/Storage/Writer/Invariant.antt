-- ===== src/Storage/Writer/Invariant.antt =====
-- storage/writer.py: what holds of a writer between two critical sections.
pub mod Callers
pub mod Work
use mathlib.Core.List.{append_assoc, append-nil}
use viskium.Prelude.{
  ℕ, ◌+◌, ◌≤◌, ◌<◌, ◌≡◌, refl, String, Option, none, some, Bool, true, false, not, List, [], ◌∷◌,
  ◌++◌, arith, int_of_bool, length, length-append, total, total-append, ◌⊎◌, inl, inr, Option-cases,
  List-cases,
}
use viskium.Core.Receipt.{PersistenceReceipt}
use viskium.Storage.Writer.State.{WriterState, Pending, Writer, is_running, is_stopped}
use viskium.Storage.Writer.Calls.{start_begin, start_end, submit, stop_begin, stop_end}
use viskium.Storage.Writer.Recent.{length-push_recent}
use viskium.Storage.Writer.Worker.{
  receipt_metadata, factory_failed, store_ready, next, put_failed, put_done, run_end,
}
use viskium.Storage.Writer.System.{Worker, System, cut, is_alive}

abbrev pub is_draining : WriterState → Bool
is_draining WriterState.draining = true
is_draining _ = false

-- `failed` and `stuck` are what the end of `_run` leaves alone.
abbrev pub is_broken : WriterState → Bool
is_broken WriterState.failed = true
is_broken WriterState.stuck = true
is_broken _ = false

abbrev pub is_idle : WriterState → Bool
is_idle WriterState.new = true
is_idle WriterState.stopped = true
is_idle _ = false

abbrev pub is_working : WriterState → Bool
is_working WriterState.running = true
is_working WriterState.draining = true
is_working WriterState.stuck = true
is_working _ = false

module _ {A : Type 0} where
  abbrev pub is_putting : Worker A → Bool
  is_putting (Worker.putting _) = true
  is_putting _ = false

  abbrev pub is_unstarted : Worker A → Bool
  is_unstarted Worker.unstarted = true
  is_unstarted _ = false

  abbrev pub is_early : Worker A → Bool
  is_early Worker.unstarted = true
  is_early Worker.creating = true
  is_early Worker.entering = true
  is_early _ = false

  abbrev pub is_midway : Worker A → Bool
  is_midway Worker.looping = true
  is_midway (Worker.putting _) = true
  is_midway _ = false

  abbrev pub is_late : Worker A → Bool
  is_late (Worker.closing _) = true
  is_late Worker.dead = true
  is_late _ = false

  abbrev pub persisted : Writer A → ℕ
  persisted w =
      w.persisted_accepted + w.persisted_coalesced + w.persisted_rejected + w.persisted_failed

  pub record Inv (s : System A) : Type 0 where
    pub bytes : s.writer.pending_bytes ≡ total (λ p. p.canonical_bytes) s.writer.queue
    pub count_bound : length s.writer.queue ≤ s.writer.max_pending_count
    pub byte_bound : s.writer.pending_bytes ≤ s.writer.max_pending_bytes
    pub fifo : s.submitted ≡ s.puts ++ (s.writer.queue ++ s.dropped)
    pub counted : s.writer.queued_count ≡ length s.submitted
    pub settled : persisted s.writer + int_of_bool s.writer.in_flight ≡ length s.puts
    pub discards : s.writer.discarded ≡ length s.dropped
    pub flight : s.writer.in_flight ≡ is_putting s.worker
    pub threaded : s.writer.thread ≡ not (is_unstarted s.worker)
    pub exclusive : (s.writer.queue ≡ []) ⊎ (s.dropped ≡ [])
    pub undropped : is_running s.writer.state ≡ true → s.dropped ≡ []
    pub early_queue : is_early s.worker ≡ true → s.writer.queue ≡ []
    pub early_undropped : is_early s.worker ≡ true → s.dropped ≡ []
    pub early_state : is_early s.worker ≡ true → is_running s.writer.state ≡ false
    pub midway : is_midway s.worker ≡ true → is_working s.writer.state ≡ true
    pub stopping : s.writer.stop_requested ≡ true → is_running s.writer.state ≡ false
    pub draining : is_draining s.writer.state ≡ true → s.writer.stop_requested ≡ true
    pub hasty :
        is_draining s.writer.state ≡ true → s.writer.drain_requested ≡ false → s.writer.queue ≡ []
    pub unstarted_state : is_unstarted s.worker ≡ true → is_idle s.writer.state ≡ true
    pub ended : is_stopped s.writer.state ≡ true → is_alive s.worker ≡ false
    pub late_state : is_late s.worker ≡ true → is_running s.writer.state ≡ false
    pub late_queue :
        is_late s.worker ≡ true → is_broken s.writer.state ≡ false → s.writer.queue ≡ []
    pub history : length s.writer.recent ≤ s.writer.receipt_history_limit
    pub limit : 0 < s.writer.receipt_history_limit

  pub cut-discard :
      (w w' : Writer A) → w'.discarded ≡ w.discarded + length w.queue → cut w w' ≡ w.queue
  cut-discard w w' e = elim (List-cases w.queue) [
    | inl empty ↦ ground arith
    | inr (p, rest, q) ↦ ground arith
  ]
