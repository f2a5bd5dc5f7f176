-- ===== src/Capture/Controller/Lifecycle.antt =====
-- capture/controller.py: a controller from its start to the end of its worker.
mod Tests
use viskium.Prelude.{
  ℕ, Option, none, some, Bool, true, false, ◌||◌, is_some, List, [], ◌∷◌, if◌then◌else◌, ◌≡◌, ◌≢◌,
  refl, sym, ◌∙◌, ap, arith,
}
use viskium.Capture.Slot.{LatestFrameSlot, close}
use viskium.Capture.Controller.State.{Controller, new_controller, StartResult, running, start}
use viskium.Capture.Controller.World.{Env, Config, World, Outcome, ok, raised, paused}
use viskium.Capture.Controller.Triples.{Predicate, Exits, Post, Triple}
use viskium.Capture.Controller.Protocol.{Phase, phase, view, Is, view_at, At, is_resting, is_lawful}
use viskium.Capture.Controller.Run.{run}
use viskium.Capture.Controller.Run.Discipline.{never, run-At}
use viskium.Capture.Controller.Run.Ended.{Ended, is_over, run-Ended}

-- The worker's thread starts on this controller.
abbrev pub begin : Controller → World
begin c = record {
  controller = c;
  now = 0;
  deeds = [];
  instances = 0;
  active = none;
  leased = false;
}

-- A controller that `start` has just put to work.
abbrev pub IsStarted : LatestFrameSlot → Controller → Type 0
IsStarted frames c = start true (new_controller frames) ≡ running c

started-view :
    (frames : LatestFrameSlot) (c : Controller)
    → IsStarted frames c
    → Is (view_at Phase.idle) (begin c)
unfolding start new_controller view phase
started-view frames c h = ground arith

At-phase : (allows : Phase → Bool) (w : World) → At allows w → allows (phase w.deeds) ≡ true
unfolding view
At-phase allows w a = ap (λ u. allows u.at) a.agrees ∙ a.allowed

resting-is_lawful : (p : Phase) → is_resting p ≡ true → is_lawful p ≡ true
resting-is_lawful p h = ground arith

Post-lawful :
    (o : Outcome (Unit {0})) (w : World)
    → Post never (λ _. At is_resting) o w
    → (is_lawful (phase w.deeds) ≡ true) × (o ≢ raised)
unfolding Post
Post-lawful (ok a) w h = (resting-is_lawful _ (At-phase is_resting w h), ground arith)
Post-lawful raised w h = elim h [ ]
Post-lawful paused w h = (At-phase is_lawful w h, ground arith)

paused_not_ok : {a : Unit {0}} → paused ≢ ok a
paused_not_ok e = ground arith

Post-ok :
    (q : Unit {0} → Predicate) (o : Outcome (Unit {0})) (w : World)
    → Post never q o w
    → o ≡ ok tt
    → q tt w
unfolding Post
Post-ok q (ok tt) w h e = h
Post-ok q raised w h e = elim h [ ]
Post-ok q paused w h e = elim (paused_not_ok e) [ ]

-- Whatever the backend, the lease, the clock, the resource gate and the other threads do, a worker
-- that `start` put to work acquires the lease before any backend is made, makes a backend only when
-- none is in use, opens it once, reads only an open one, closes or abandons only one in use, and
-- releases the lease only after every backend was closed; nothing follows an abandoned backend
-- or a release. No exception leaves the worker. It holds of every part of a run, since any
-- fuel may be given.
run_keeps_protocol :
    (env : Env) (config : Config) (fuel : ℕ) (frames : LatestFrameSlot) (c : Controller)
    → IsStarted frames c
    → let (o, w) = run env config fuel (begin c) in
      (is_lawful (phase w.deeds) ≡ true) × (o ≢ raised)
run_keeps_protocol env config fuel frames c started =
    Post-lawful _ _ ((run-At env config fuel).holds (begin c) (started-view frames c started))

-- What `At is_resting` says of the flags of the controller.
abbrev pub is_held : Phase → Bool
is_held Phase.held = true
is_held Phase.kept = true
is_held _ = false

abbrev pub is_kept : Phase → Bool
is_kept Phase.kept = true
is_kept _ = false

resting_flags :
    (p : Phase)
    → is_resting p ≡ true
    → ((view_at p).lease_held ≡ is_held p) × ((view_at p).retained ≡ is_kept p)
resting_flags p r = (ground arith, ground arith)

At-flags :
    (w : World)
    → At is_resting w
    → (w.controller.lease_held ≡ is_held (phase w.deeds))
      × (is_some w.controller.retained_backend ≡ is_kept (phase w.deeds))
unfolding view
At-flags w a =
    let at : phase w.deeds ≡ a.stands = ap (λ u. u.at) a.agrees in
    let (l, k) = resting_flags a.stands a.allowed in
    (
      ap (λ u. u.lease_held) a.agrees ∙ l ∙ sym (ap is_held at),
      ap (λ u. u.retained) a.agrees ∙ k ∙ sym (ap is_kept at),
    )

-- A run that ends leaves no backend in use: the one that could not be closed is
-- retained, and the controller says that it holds the lease exactly when it acquired the lease and
-- did not release it.
run_leaves_no_backend :
    (env : Env) (config : Config) (fuel : ℕ) (frames : LatestFrameSlot) (c : Controller)
    → IsStarted frames c
    → let (o, w) = run env config fuel (begin c) in
      o ≡ ok tt
      → (is_resting (phase w.deeds) ≡ true)
        × (w.controller.lease_held ≡ is_held (phase w.deeds))
        × (is_some w.controller.retained_backend ≡ is_kept (phase w.deeds))
run_leaves_no_backend env config fuel frames c started e =
    let a =
      Post-ok (λ _. At is_resting) _ _
        ((run-At env config fuel).holds (begin c) (started-view frames c started)) e in
    let (l, k) = At-flags _ a in (At-phase is_resting _ a, l, k)

-- A run that ends leaves the slot closed and empty, no stream negotiated, and the state CLOSED,
-- FAILED or STUCK.
run_shuts :
    (env : Env) (config : Config) (fuel : ℕ) (frames : LatestFrameSlot) (c : Controller)
    → IsStarted frames c
    → let (o, w) = run env config fuel (begin c) in
      o ≡ ok tt
      → (w.controller.frames.is_closed ≡ true)
        × (w.controller.frames.pending ≡ none)
        × (w.controller.negotiated_stream ≡ none)
        × (is_over w.controller.state ≡ true)
run_shuts env config fuel frames c started e =
    let h =
      Post-ok (λ _ w. Ended w.controller) _ _
        ((run-Ended env config fuel).holds (begin c) (started-view frames c started)) e in
    (h.shut.closed, h.shut.empty, h.shut.silent, h.over)
