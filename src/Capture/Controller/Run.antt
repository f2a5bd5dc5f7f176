-- ===== src/Capture/Controller/Run.antt =====
-- capture/controller.py: the worker's program, `_run`.
mod Obeys
pub mod Stuck
pub mod Discipline
pub mod Ended
use viskium.Prelude.{
  ℕ, zero, suc, ◌+◌, Option, none, some, Bool, true, false, not, ◌&&◌, is_some, ltb, if◌then◌else◌,
}
use viskium.Capture.Contracts.{CameraState}
use viskium.Capture.Contracts.Frames.{NegotiatedStream}
use viskium.Capture.Slot.{close}
use viskium.Capture.Controller.Counters.{max_int64, Counter}
use viskium.Capture.Controller.State.{Controller, is_terminal}
use viskium.Capture.Controller.World.{
  OpenReply, LeaseReply, Env, Config, Deed, Outcome, ok, raised, paused, M, ◌>>=◌, ◌>>◌, pure,
  locked, reading, ask, stop_is_set, count, explain, enter, enter_because, clock_ns, note,
  set_active, get_active,
}
use viskium.Capture.Controller.Backend.{
  FactoryResult, ready, retry, terminal, create_backend, close_or_retain, release_lease_if_safe,
  schedule_retry, resources_admit,
}
use viskium.Capture.Controller.Offer.{StreamResult, deadline_ns, validate_stream}
use viskium.Capture.Controller.Stream.{read_stream}
use viskium.Capture.Controller.Open.{
  Attempts, no_attempts, close_if_active, stop_here, fail, open_backend,
}

set_leased : M (Unit {0})
set_leased w = (ok tt, record w { leased = true })

module _ (env : Env) (config : Config) (fuel : ℕ) where
  -- After `_create_backend`, by its result and by whether a stop was asked for meanwhile.
  with_backend : Attempts → FactoryResult → Option ℕ → M (Option Attempts)
  unfolding close_if_active stop_here fail open_backend
  with_backend a terminal active = do
    close_if_active env config fuel active
    stop_here env config fuel
  with_backend a retry active = fail env config fuel a
  with_backend a ready none = do
    enter_because env CameraState.failed "backend_factory_invariant_failed"
    stop_here env config fuel
  with_backend a ready (some b) = open_backend env config fuel a b

  unless_stopped : Bool → Attempts → FactoryResult → M (Option Attempts)
  unfolding close_if_active stop_here with_backend
  unless_stopped true a r = do
    active ← get_active
    close_if_active env config fuel active
    stop_here env config fuel
  unless_stopped false a r = do active ← get_active; with_backend a r active

  activate : Option ℕ → M (Unit {0})
  activate none = pure tt
  activate (some b) = set_active (some b)

  make_attempt : Attempts → M (Option Attempts)
  unfolding activate unless_stopped
  make_attempt a = do
    enter env CameraState.opening
    (backend, r) ← create_backend env config
    activate backend
    stop ← stop_is_set env
    unless_stopped stop a r

  -- The body of the loop, once the stop event was found clear.
  attempt : Attempts → M (Option Attempts)
  unfolding stop_here make_attempt
  attempt a =
      if ltb max_int64 a.next_epoch
      then (do
        enter_because env CameraState.failed "stream_epoch_exhausted"
        stop_here env config fuel)
      else make_attempt a

  attempt_if_clear : Bool → Attempts → M (Option Attempts)
  unfolding stop_here attempt
  attempt_if_clear true a = stop_here env config fuel
  attempt_if_clear false a = attempt a

  next_attempt : (Attempts → M (Unit {0})) → Option Attempts → M (Unit {0})
  next_attempt go_on none = pure tt
  next_attempt go_on (some a) = go_on a

  pub run_loop : ℕ → Attempts → M (Unit {0})
  unfolding attempt_if_clear next_attempt
  run_loop zero a w = (paused, w)
  run_loop (suc n) a w =
      ((stop_is_set env >>= λ stop. attempt_if_clear stop a) >>= next_attempt (run_loop n)) w

  acquire : LeaseReply → M Bool
  acquire LeaseReply.raises = do
    enter_because env CameraState.failed "camera_lease_failed"
    pure false
  acquire LeaseReply.refused = do
    enter_because env CameraState.failed "camera_lease_busy"
    pure false
  acquire LeaseReply.granted = do
    note Deed.acquired
    set_leased
    locked env (λ c. record c { lease_held = true })
    pure true

  loop_if : Bool → M (Unit {0})
  unfolding run_loop
  loop_if true = run_loop fuel no_attempts
  loop_if false = pure tt

  own_lease : Bool → M (Unit {0})
  unfolding acquire loop_if
  own_lease true = pure tt
  own_lease false = do reply ← ask env env.acquires; held ← acquire reply; loop_if held

  check_again : Bool → M (Unit {0})
  unfolding own_lease
  check_again false = pure tt
  check_again true = do stop ← stop_is_set env; own_lease stop

  admit : Bool → M (Unit {0})
  unfolding check_again
  admit true = pure tt
  admit false = do admitted ← resources_admit env config; check_again admitted

  -- The `try` of `_run`.
  pub guarded : M (Unit {0})
  unfolding admit run_loop
  guarded = do stop ← stop_is_set env; admit stop

  pub release_if : Bool → M (Unit {0})
  release_if false = pure tt
  release_if true = do was_released ← release_lease_if_safe env config; pure tt

  abbrev settle : Controller → Controller
  settle c = if is_terminal c.state then c else record c { state = CameraState.closed }

  pub get_leased : M Bool
  get_leased w = (ok w.leased, w)

  -- Its `finally`.
  pub finish : M (Unit {0})
  unfolding close_if_active release_if get_leased
  finish = do
    active ← get_active
    close_if_active env config fuel active
    locked env (λ c. record c { negotiated_stream = none })
    locked env (λ c. record c { frames = close c.frames })
    retained ← reading env (λ c. is_some c.retained_backend)
    leased ← get_leased
    release_if (leased && not retained)
    locked env settle

  -- Its `except`.
  pub handle : M (Unit {0})
  handle = do
    count env Counter.backend_failures
    enter_because env CameraState.failed "controller_internal_error"

  pub conclude : Outcome (Unit {0}) → M (Unit {0})
  unfolding handle finish
  conclude (ok done) w = finish w
  conclude raised w = (handle >> finish) w
  conclude paused w = (paused, w)

  -- `_run`; a run whose fuel ends is cut there.
  unfoldable pub run : M (Unit {0})
  unfolding guarded conclude set_leased
  run w = let (o, w') = guarded w in conclude o w'
