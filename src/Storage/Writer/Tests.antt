-- ===== src/Storage/Writer/Tests.antt =====
-- storage/writer.py: a writer at concrete inputs.
use viskium.Prelude.{
  ℕ, ◌+◌, ◌≤◌, ◌≡◌, refl, ◌≢◌, ◌↔◌, Option, none, some, true, false, List, [], ◌∷◌, ◌++◌, leb,
  int_of_bool, length, total, if◌then◌else◌,
}
use viskium.Core.Receipt.{PersistenceStatus, PersistenceReceipt}
use viskium.Storage.Writer.State.{WriterState, SubmissionStatus, Writer, fresh_writer, make_writer}
use viskium.Storage.Writer.Calls.{start_begin, submit, stop_begin, stop_end}
use viskium.Storage.Writer.Worker.{store_ready, next, put_done, run_end}
use viskium.Storage.Writer.System.{Worker, Event, System, boot, step, run}
use viskium.Storage.Writer.Invariant.{persisted}
use viskium.Storage.Writer.Reach.{run_bounded, run_accounts}
use viskium.Storage.Writer.Admission.{Admits, submit-queued_iff, submit_refusal}
use viskium.Storage.Writer.Shutdown.{nothing_queued_after_stop, clean_stop_accounts}

-- An observation is its own size.
abbrev own_size : ℕ → ℕ → Option ℕ
own_size o limit = if leb o limit then some o else none

abbrev small : Writer ℕ
small = fresh_writer 2 10 4

make_small : make_writer 2 10 4 ≡ some small
unfolding make_writer
make_small = refl

no_limits : make_writer {A = ℕ} 2 0 4 ≡ none
unfolding make_writer
no_limits = refl

abbrev stored : PersistenceReceipt
stored = record {
  status = PersistenceStatus.accepted;
  reason = none;
  store_sequence = some 1;
  bytes_accepted = 4;
}

-- The third submission meets the count limit.
abbrev busy : List (Event ℕ)
busy =
    Event.starts
    ∷ Event.factory_makes
    ∷ Event.enters
    ∷ Event.submits (some 4)
    ∷ Event.submits (some 5)
    ∷ Event.submits (some 3)
    ∷ []

abbrev held : System ℕ
held = run own_size busy (boot small)

held_queue : (length held.writer.queue ≡ 2) × (held.writer.rejected_count ≡ 1)
unfolding run step start_begin store_ready submit
held_queue = (refl, refl)

-- A stop with no drain drops what waits; the observation that is being put is still recorded.
abbrev hasty : List (Event ℕ)
hasty = Event.wakes ∷ Event.stops false ∷ Event.put_returns stored ∷ Event.closes none ∷ []

hasty_stop :
    let s = run own_size hasty held in
    (s.writer.state ≡ WriterState.stopped)
    × (s.writer.discarded ≡ 1)
    × (s.writer.persisted_accepted ≡ 1)
unfolding run step start_begin store_ready submit next stop_begin put_done run_end
hasty_stop = (refl, refl, refl)

-- After a stop that timed out while draining, a second stop with no drain makes the worker leave
-- what waits: it is neither put nor counted as discarded.
abbrev stranded : List (Event ℕ)
stranded =
    Event.wakes
    ∷ Event.stops true
    ∷ Event.stop_expires
    ∷ Event.stops false
    ∷ Event.put_returns stored
    ∷ Event.closes none
    ∷ []

stranded_queue :
    let s = run own_size stranded held in
    (s.worker ≡ Worker.dead)
    × (s.writer.state ≡ WriterState.stuck)
    × (length s.writer.queue ≡ 1)
    × (s.writer.discarded ≡ 0)
unfolding run step start_begin store_ready submit next stop_begin stop_end put_done run_end
stranded_queue = (refl, refl, refl, refl)

run_bounded_example :
    let w' = held.writer in
    (length w'.queue ≤ w'.max_pending_count)
    × (w'.pending_bytes ≡ total (λ p. p.canonical_bytes) w'.queue)
    × (w'.pending_bytes ≤ w'.max_pending_bytes)
    × (length w'.recent ≤ w'.receipt_history_limit)
run_bounded_example = run_bounded own_size 2 10 4 busy make_small

run_accounts_example :
    (held.submitted ≡ held.puts ++ (held.writer.queue ++ held.dropped))
    × (held.writer.queued_count
        ≡ persisted held.writer
          + int_of_bool held.writer.in_flight
          + length held.writer.queue
          + held.writer.discarded)
run_accounts_example = run_accounts own_size 2 10 4 busy make_small

nothing_queued_after_stop_example :
    (run own_size busy (step own_size (Event.stops true) held)).submitted ≡ held.submitted
nothing_queued_after_stop_example =
    nothing_queued_after_stop own_size 2 10 4 busy busy true make_small

abbrev ended : List (Event ℕ)
ended =
    Event.starts
    ∷ Event.factory_makes
    ∷ Event.enters
    ∷ Event.submits (some 4)
    ∷ Event.stops true
    ∷ Event.wakes
    ∷ Event.put_returns stored
    ∷ Event.wakes
    ∷ Event.closes none
    ∷ []

ended_clean : (stop_end false 0 (run own_size ended (boot small)).writer).1.clean ≡ true
unfolding run step start_begin store_ready submit next stop_begin stop_end put_done run_end
ended_clean = refl

clean_stop_accounts_example :
    let s = run own_size ended (boot small) in
    (s.submitted ≡ s.puts ++ s.dropped) × (length s.dropped ≡ s.writer.discarded)
clean_stop_accounts_example = clean_stop_accounts own_size 2 10 4 ended 0 make_small ended_clean

submit-queued_iff_example :
    ((submit own_size (some 4) small).1.status ≡ SubmissionStatus.queued)
    ↔ ((bytes : ℕ) × Admits own_size 4 small bytes)
submit-queued_iff_example = submit-queued_iff own_size 4 small

small_refuses : (submit own_size (some 4) small).1.status ≢ SubmissionStatus.queued
unfolding submit
small_refuses e = cc

submit_refusal_example :
    (submit own_size (some 4) small).0 ≡ record small { rejected_count = small.rejected_count + 1 }
submit_refusal_example = submit_refusal own_size (some 4) small small_refuses
