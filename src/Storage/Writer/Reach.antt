-- ===== src/Storage/Writer/Reach.antt =====
-- storage/writer.py: what holds after any sequence of critical sections.
use viskium.Prelude.{
  ℕ, ◌+◌, ◌≤◌, ◌≡◌, Option, some, List, [], ◌∷◌, ◌++◌, arith, int_of_bool, length, length-append,
  total, ap,
}
use viskium.Storage.Writer.State.{Writer, make_writer}
use viskium.Storage.Writer.System.{Event, System, boot, step, run}
use viskium.Storage.Writer.Invariant.{Inv, persisted}
use viskium.Storage.Writer.Invariant.Callers.{
  start-Inv, start_expires-Inv, stop_expires-Inv, stops-Inv, submits-Inv,
}
use viskium.Storage.Writer.Invariant.Work.{
  enters-Inv, factory_raises-Inv, factory_is_invalid-Inv, factory_makes-Inv, wakes-Inv, closes-Inv,
  put_raises-Inv, put_returns-Inv,
}

module _ {A : Type 0} (size : A → ℕ → Option ℕ) where
  pub step-Inv : (e : Event A) (s : System A) → Inv s → Inv (step size e s)
  step-Inv (Event.submits o) s h = submits-Inv size o s h
  step-Inv Event.starts s h = start-Inv size s h
  step-Inv Event.start_expires s h = start_expires-Inv size s h
  step-Inv (Event.stops drain) s h = stops-Inv size drain s h
  step-Inv Event.stop_expires s h = stop_expires-Inv size s h
  step-Inv (Event.factory_raises x) s h = factory_raises-Inv size x s h
  step-Inv Event.factory_is_invalid s h = factory_is_invalid-Inv size s h
  step-Inv Event.factory_makes s h = factory_makes-Inv size s h
  step-Inv Event.enters s h = enters-Inv size s h
  step-Inv Event.wakes s h = wakes-Inv size s h
  step-Inv (Event.put_raises x) s h = put_raises-Inv size x s h
  step-Inv (Event.put_returns r) s h = put_returns-Inv size r s h
  step-Inv (Event.closes f) s h = closes-Inv size f s h

  pub run-Inv : (es : List (Event A)) (s : System A) → Inv s → Inv (run size es s)
  unfolding run
  run-Inv [] s h = h
  run-Inv (e ∷ es) s h = run-Inv es (step size e s) (step-Inv e s h)

  pub boot-Inv :
      (count bytes limit : ℕ) {w : Writer A} → make_writer count bytes limit ≡ some w → Inv (boot w)
  unfolding make_writer
  boot-Inv count bytes limit e = ground arith

  -- Whatever the callers, the store and the scheduler do, the queue of a writer stays within its
  -- count and byte limits, `pending_bytes` is the sum of the sizes that wait in it, and no more
  -- receipts are kept than the history limit.
  pub run_bounded :
      (count bytes limit : ℕ) {w : Writer A} (es : List (Event A))
      → make_writer count bytes limit ≡ some w
      → let w' = (run size es (boot w)).writer in
        (length w'.queue ≤ w'.max_pending_count)
        × (w'.pending_bytes ≡ total (λ p. p.canonical_bytes) w'.queue)
        × (w'.pending_bytes ≤ w'.max_pending_bytes)
        × (length w'.recent ≤ w'.receipt_history_limit)
  run_bounded count bytes limit {w} es e =
      let h = run-Inv es (boot w) (boot-Inv count bytes limit e) in
      (h.count_bound, h.bytes, h.byte_bound, h.history)

  -- Nothing that was queued is lost or reordered: what `submit` queued is, in order, what was
  -- handed to the store, then what waits, then what was discarded; and the counters agree with it.
  pub run_accounts :
      (count bytes limit : ℕ) {w : Writer A} (es : List (Event A))
      → make_writer count bytes limit ≡ some w
      → let s = run size es (boot w) in
        (s.submitted ≡ s.puts ++ (s.writer.queue ++ s.dropped))
        × (s.writer.queued_count
            ≡ persisted s.writer
              + int_of_bool s.writer.in_flight
              + length s.writer.queue
              + s.writer.discarded)
  run_accounts count bytes limit {w} es e = (h.fifo, counts (run size es (boot w)) h)
    where
      h : Inv (run size es (boot w))
      h = run-Inv es (boot w) (boot-Inv count bytes limit e)

      counts :
          (s : System A)
          → Inv s
          → s.writer.queued_count
            ≡ persisted s.writer
              + int_of_bool s.writer.in_flight
              + length s.writer.queue
              + s.writer.discarded
      counts s i = ground (
        arith,
        length-append s.puts (s.writer.queue ++ s.dropped),
        length-append s.writer.queue s.dropped,
        ap length i.fifo,
      )
