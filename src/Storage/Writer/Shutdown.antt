-- ===== src/Storage/Writer/Shutdown.antt =====
-- storage/writer.py: what `stop` promises.
use mathlib.Core.List.{append-nil}
use viskium.Prelude.{
  ℕ, ◌≡◌, refl, inl, inr, Option, none, some, Bool, true, false, ◌||◌, List, [], ◌∷◌, ◌++◌, ◌∙◌,
  arith, sym, length, Option-cases,
}
use viskium.Storage.Writer.State.{WriterState, Writer, is_running, is_stopped, make_writer}
use viskium.Storage.Writer.Calls.{start_begin, start_end, submit, stop_begin, stop_end}
use viskium.Storage.Writer.Worker.{factory_failed, store_ready, next, put_failed, put_done, run_end}
use viskium.Storage.Writer.System.{Event, System, boot, step, run}
use viskium.Storage.Writer.Invariant.{Inv}
use viskium.Storage.Writer.Reach.{step-Inv, run-Inv, boot-Inv}

module _ {A : Type 0} (size : A → ℕ → Option ℕ) where
  -- A stop was asked for, or the writer never ran and never will.
  abbrev is_closed : Writer A → Bool
  is_closed w = w.stop_requested || is_stopped w.state

  Inv-not_running :
      (s : System A) → Inv s → is_closed s.writer ≡ true → is_running s.writer.state ≡ false
  Inv-not_running s h c = ground arith

  stops-is_closed :
      (drain : Bool) (s : System A)
      → Inv s
      → is_closed (step size (Event.stops drain) s).writer ≡ true
  unfolding step stop_begin
  stops-is_closed drain s h = ground arith

  submit_refused :
      (o : Option A) (s : System A)
      → is_running s.writer.state ≡ false
      → (step size (Event.submits o) s).submitted ≡ s.submitted
  unfolding step submit
  submit_refused none s h = refl
  submit_refused (some o) s h = elim (Option-cases (size o s.writer.max_pending_bytes)) [
    | inl large ↦ ground (arith, append-nil s.submitted)
    | inr (bytes, e) ↦ ground (arith, append-nil s.submitted)
  ]

  submit_closed :
      (o : Option A) (s : System A)
      → is_running s.writer.state ≡ false
      → is_closed (step size (Event.submits o) s).writer ≡ is_closed s.writer
  unfolding step submit
  submit_closed none s h = refl
  submit_closed (some o) s h = elim (Option-cases (size o s.writer.max_pending_bytes)) [
    | inl large ↦ ground arith
    | inr (bytes, e) ↦ ground arith
  ]

  -- One more event leaves a closed writer closed, and queues nothing.
  step_closed :
      (e : Event A) (s : System A)
      → Inv s
      → is_closed s.writer ≡ true
      → (is_closed (step size e s).writer ≡ true) × ((step size e s).submitted ≡ s.submitted)
  unfolding step start_begin start_end stop_begin stop_end factory_failed store_ready next
      put_failed put_done run_end
  step_closed (Event.submits o) s h c =
      let quiet = Inv-not_running s h c in (submit_closed o s quiet ∙ c, submit_refused o s quiet)
  step_closed Event.starts s h c = ground arith
  step_closed Event.start_expires s h c = ground arith
  step_closed (Event.stops drain) s h c = ground arith
  step_closed Event.stop_expires s h c = ground arith
  step_closed (Event.factory_raises x) s h c = ground arith
  step_closed Event.factory_is_invalid s h c = ground arith
  step_closed Event.factory_makes s h c = ground arith
  step_closed Event.enters s h c = ground arith
  step_closed Event.wakes s h c = ground arith
  step_closed (Event.put_raises x) s h c = ground arith
  step_closed (Event.put_returns r) s h c = ground arith
  step_closed (Event.closes f) s h c = ground arith

  run_closed :
      (es : List (Event A)) (s : System A)
      → Inv s
      → is_closed s.writer ≡ true
      → (run size es s).submitted ≡ s.submitted
  unfolding run
  run_closed [] s h c = refl
  run_closed (e ∷ es) s h c =
      let (c', same) = step_closed e s h c in
      run_closed es (step size e s) (step-Inv size e s h) c' ∙ same

  stops_submits :
      (drain : Bool) (s : System A) → (step size (Event.stops drain) s).submitted ≡ s.submitted
  unfolding step
  stops_submits drain s = refl

  -- Once `stop` has been called, whatever happens next, no further observation is ever queued.
  pub nothing_queued_after_stop :
      (count bytes limit : ℕ) {w : Writer A} (before after : List (Event A)) (drain : Bool)
      → make_writer count bytes limit ≡ some w
      → let s = run size before (boot w) in
        let stopped = step size (Event.stops drain) s in
        (run size after stopped).submitted ≡ s.submitted
  nothing_queued_after_stop count bytes limit {w} before after drain e =
      let s = run size before (boot w) in
      let h = run-Inv size before (boot w) (boot-Inv size count bytes limit e) in
      run_closed after (step size (Event.stops drain) s) (step-Inv size (Event.stops drain) s h)
        (stops-is_closed drain s h)
      ∙ stops_submits drain s

  clean_queue :
      (s : System A) (n : ℕ)
      → Inv s
      → (stop_end false n s.writer).1.clean ≡ true
      → (s.writer.queue ≡ []) × (s.writer.state ≡ WriterState.stopped)
  unfolding stop_end
  clean_queue s n h c = ground arith

  -- A stop that reports a clean end after joining the dead worker leaves nothing waiting: all that
  -- was ever queued was handed to the store, in order, up to what the writer counts as discarded.
  pub clean_stop_accounts :
      (count bytes limit : ℕ) {w : Writer A} (es : List (Event A)) (discarded_now : ℕ)
      → make_writer count bytes limit ≡ some w
      → let s = run size es (boot w) in
        (stop_end false discarded_now s.writer).1.clean ≡ true
        → (s.submitted ≡ s.puts ++ s.dropped) × (length s.dropped ≡ s.writer.discarded)
  clean_stop_accounts count bytes limit {w} es n e c =
      let s = run size es (boot w) in
      let h = run-Inv size es (boot w) (boot-Inv size count bytes limit e) in
      let (empty, _) = clean_queue s n h c in (rw h.fifo (rw empty), sym h.discards)
