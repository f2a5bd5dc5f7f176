-- ===== src/Capture/Controller/State.antt =====
-- capture/controller.py: the fields of `CameraController`, its critical sections that one method
-- consists of, and what other threads do to it.
use viskium.Prelude.{
  ℕ, String, Option, none, some, Bool, true, false, ◌&&◌, ◌||◌, not, List, [], ◌∷◌, if◌then◌else◌,
}
use viskium.Capture.Controller.Counters.{
  Counters, no_counts, Counter, stop_timeouts, increment_counter,
}
use viskium.Capture.Contracts.{CameraState}
use viskium.Capture.Contracts.Frames.{NegotiatedStream}
use viskium.Capture.Slot.{LatestFrameSlot, close, takes, apply}

-- A backend is known by the count of backends made before it.
pub record Controller : Type 0 where
  pub frames : LatestFrameSlot
  pub stop_requested : Bool
  pub state : CameraState
  pub last_reason_code : Option String
  pub started : Bool
  pub stream_epoch : Option ℕ
  pub negotiated_stream : Option NegotiatedStream
  pub retained_backend : Option ℕ
  pub lease_held : Bool
  pub counters : Counters

abbrev pub is_stuck : CameraState → Bool
is_stuck CameraState.stuck = true
is_stuck _ = false

abbrev pub is_terminal : CameraState → Bool
is_terminal CameraState.failed = true
is_terminal CameraState.stuck = true
is_terminal _ = false

unfoldable pub increment : Counter → Controller → Controller
increment k c = record c { counters = increment_counter k c.counters }

unfoldable pub set_reason : String → Controller → Controller
set_reason r c = record c { last_reason_code = some r }

-- `_set_state`, with and without a reason; a controller that is stuck stays so.
unfoldable pub set_state : CameraState → Controller → Controller
set_state s c = if is_stuck c.state && not (is_stuck s) then c else record c { state = s }

unfoldable pub set_state_because : CameraState → String → Controller → Controller
set_state_because s r c =
    if is_stuck c.state && not (is_stuck s)
    then c
    else record c { state = s; last_reason_code = some r }

-- What the constructor makes, over this slot.
unfoldable pub new_controller : LatestFrameSlot → Controller
new_controller frames = record {
  frames = frames;
  stop_requested = false;
  state = CameraState.closed;
  last_reason_code = none;
  started = false;
  stream_epoch = none;
  negotiated_stream = none;
  retained_backend = none;
  lease_held = false;
  counters = no_counts;
}

-- `start` refuses with a CaptureStateError; or the worker runs; or the thread cannot be started, and
-- its error goes on to the caller.
pub data StartResult : Type 0 where
  refused : StartResult
  running : Controller → StartResult
  failed_to_start : Controller → StartResult

unfoldable pub start : Bool → Controller → StartResult
start worker_starts c =
    if c.started || c.frames.is_closed
    then refused
    else (let c' : Controller = record c { started = true; state = CameraState.opening } in
        if worker_starts
        then running c'
        else failed_to_start (record c' {
          state = CameraState.failed;
          last_reason_code = some "worker_start_failed";
          frames = close c'.frames;
        }))

-- `stop` sets the event and closes the slot; then it decides under the lock. `alive` says that the
-- worker lives, and `own` that it is the worker that calls. `none` means that `stop` goes on to join.
unfoldable pub mark_stopping : Controller → Controller
mark_stopping c =
    if is_terminal c.state
    then c
    else record c { state = CameraState.stopping; last_reason_code = some "stop_requested" }

unfoldable pub stop_decide : Bool → Bool → Controller → Controller × Option Bool
unfolding mark_stopping
stop_decide alive own c =
    if not c.started
    then (c, some true)
    else if is_stuck c.state && alive
    then (c, some false)
    else if own
    then (mark_stopping c, some false)
    else (if alive then mark_stopping c else c, none)

-- The end of `stop`, after the join.
unfoldable pub stop_end : Bool → Controller → Controller × Bool
unfolding increment
stop_end alive c =
    if alive
    then (let counted : Controller = if is_stuck c.state then c else increment stop_timeouts c in
        (
          record counted {
            state = CameraState.stuck;
            last_reason_code = some "shutdown_deadline_exceeded";
          },
          false,
        ))
    else (c, true)

-- One critical section of another thread, while the worker lives.
pub data Action : Type 0 where
  requests_stop closes_slot decides_stop gives_up takes_frame : Action

unfoldable pub act : Action → Controller → Controller
unfolding stop_decide stop_end
act requests_stop c = record c { stop_requested = true }
act closes_slot c = record c { frames = close c.frames }
act decides_stop c = (stop_decide true false c).0
act gives_up c = (stop_end true c).0
act takes_frame c = record c { frames = (apply takes c.frames).0 }

unfoldable pub act_all : List Action → Controller → Controller
unfolding act
act_all [] c = c
act_all (a ∷ rest) c = act_all rest (act a c)
