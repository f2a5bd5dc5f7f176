-- ===== src/Storage/Writer/System.antt =====
-- storage/writer.py: `ObservationWriter` as a whole. The critical sections run under one lock, so
-- an execution is a sequence of them, in any order that the worker's own program allows.
use viskium.Prelude.{
  ℕ, String, Option, none, some, Bool, true, false, List, [], ◌∷◌, ◌++◌, ltb, if◌then◌else◌,
}
use viskium.Core.Receipt.{PersistenceReceipt}
use viskium.Storage.Writer.State.{Pending, SubmissionStatus, SubmissionResult, Writer}
use viskium.Storage.Writer.Calls.{start_begin, start_end, submit, stop_begin, stop_end}
use viskium.Storage.Writer.Worker.{
  Wakeup, factory_failed, store_ready, next, put_failed, put_done, run_end,
}

-- Where the worker stands in `_run`: `closing store` is its `finally`, `store` telling whether
-- there is one.
pub data Worker (A : Type 0) : Type 0 where
  unstarted creating entering looping : Worker A
  putting : Pending A → Worker A
  closing : Bool → Worker A
  dead : Worker A

-- What happens next: a call from another thread, a join or a wait that expires, or the outcome of
-- what the worker does.
pub data Event (A : Type 0) : Type 0 where
  submits : Option A → Event A
  starts start_expires : Event A
  stops : Bool → Event A
  stop_expires : Event A
  factory_raises : String → Event A
  factory_is_invalid factory_makes enters wakes : Event A
  put_raises : String → Event A
  put_returns : PersistenceReceipt → Event A
  closes : Option String → Event A

-- `submitted` lists what `submit` queued, `puts` what was handed to `store.put`, and `dropped` what
-- was discarded, each in its order.
pub record System (A : Type 0) : Type 0 where
  pub writer : Writer A
  pub worker : Worker A
  pub submitted : List (Pending A)
  pub puts : List (Pending A)
  pub dropped : List (Pending A)

module _ {A : Type 0} where
  abbrev pub boot : Writer A → System A
  boot w = record { writer = w; worker = unstarted; submitted = []; puts = []; dropped = [] }

  -- What a section threw away, if it counts more as discarded than before.
  abbrev pub cut : Writer A → Writer A → List (Pending A)
  cut w w' = if ltb w.discarded w'.discarded then w.queue else []

  abbrev pub note : A → SubmissionResult → List (Pending A)
  note o r = elim r.status [
    | SubmissionStatus.queued ↦ record { observation = o; canonical_bytes = r.canonical_bytes } ∷ []
    | _ ↦ []
  ]

  submit_at : (A → ℕ → Option ℕ) → Option A → System A → System A
  submit_at size none s = record s { writer = (submit size none s.writer).0 }
  submit_at size (some o) s =
      let (w, r) = submit size (some o) s.writer in
      record s { writer = w; submitted = s.submitted ++ note o r }

  start_at : Option (Writer A) → System A → System A
  start_at none s = s
  start_at (some w) s = record s { writer = w; worker = creating }

  settle : Writer A → Worker A → System A → System A
  settle w pc s = record s { writer = w; worker = pc; dropped = s.dropped ++ cut s.writer w }

  wake : Writer A × Wakeup A → System A → System A
  wake (w, Wakeup.put p) s = record s { writer = w; worker = putting p; puts = s.puts ++ p ∷ [] }
  wake (w, Wakeup.leave) s = record s { writer = w; worker = closing true }
  wake (w, Wakeup.wait) s = s

  work : Event A → Worker A → System A → System A
  unfolding settle wake
  work (factory_raises e) creating s = settle (factory_failed e s.writer) (closing false) s
  work factory_is_invalid creating s = settle (factory_failed "TypeError" s.writer) (closing true) s
  work factory_makes creating s = record s { worker = entering }
  work enters entering s = record s { writer = store_ready s.writer; worker = looping }
  work wakes looping s = wake (next s.writer) s
  work (put_raises e) (putting p) s = settle (put_failed e s.writer) (closing true) s
  work (put_returns r) (putting p) s =
      let (w, stop) = put_done r p.canonical_bytes s.writer in
      record s { writer = w; worker = if stop then closing true else looping }
  work (closes failure) (closing store) s = record s {
    writer = run_end store (if store then failure else none) s.writer;
    worker = dead;
  }
  work _ _ s = s

  abbrev pub is_alive : Worker A → Bool
  is_alive unstarted = false
  is_alive dead = false
  is_alive _ = true

  -- One event; an event that cannot happen where the worker stands changes nothing.
  unfoldable pub step : (A → ℕ → Option ℕ) → Event A → System A → System A
  unfolding submit_at start_at settle work
  step size (submits o) s = submit_at size o s
  step size starts s = start_at (start_begin s.writer) s
  step size start_expires s =
      if s.writer.thread then record s { writer = (start_end false s.writer).0 } else s
  step size (stops drain) s = settle (stop_begin drain s.writer).0 s.worker s
  step size stop_expires s =
      if is_alive s.worker then record s { writer = (stop_end true 0 s.writer).0 } else s
  step size e s = work e s.worker s

  unfoldable pub run : (A → ℕ → Option ℕ) → List (Event A) → System A → System A
  run size [] s = s
  run size (e ∷ es) s = run size es (step size e s)
