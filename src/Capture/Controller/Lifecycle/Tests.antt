-- ===== src/Capture/Controller/Lifecycle/Tests.antt =====
-- capture/controller.py: runs of the worker with a small camera.
use viskium.Prelude.{
  ℕ, none, some, true, [], ◌∷◌, ◌≡◌, ◌≢◌, refl, is_some, ◌==◌, if◌then◌else◌, inr, ltb, arith,
}
use viskium.Capture.Contracts.{CameraState, DeadlineCapability}
use viskium.Capture.Contracts.Policy.{default_camera_policy}
use viskium.Capture.Contracts.Frames.{NegotiatedStream, BackendFrame, CaptureRead}
use viskium.Capture.Slot.{new_slot}
use viskium.Capture.Controller.Counters.{increment_counter}
use viskium.Capture.Controller.State.{
  Controller, new_controller, start, requests_stop, gives_up, is_stuck,
}
use viskium.Capture.Controller.World.{
  CapabilitiesReply, FactoryReply, OpenReply, ReadReply, CloseReply, LeaseReply, Env, Config, Deed,
  World, Outcome, ok, raised,
}
use viskium.Capture.Controller.Protocol.{phase, is_lawful, is_resting}
use viskium.Capture.Controller.Run.{run}
use viskium.Capture.Controller.Run.Stuck.{stuck_is_final}
use viskium.Capture.Controller.Run.Ended.{is_over}
use viskium.Capture.Controller.Lifecycle.{
  begin, IsStarted, is_held, is_kept, run_keeps_protocol, run_leaves_no_backend, run_shuts,
}
use viskium.Capture.Controller.World.{
  reading, pass, ask, note, locked, set_active, get_active, clock_ns, valid_time,
}
use viskium.Capture.Controller.State.{
  act, act_all, new_controller, set_state, increment, mark_stopping, set_reason, set_state_because,
  stop_decide, stop_end,
}
use viskium.Capture.Controller.Backend.{
  resources_admit, create_backend, close_or_retain, release_lease_if_safe, schedule_retry,
}
use viskium.Capture.Controller.Offer.{
  deadline_ns, validate_stream, frame_matches_stream, envelope, offer_frame,
}
use viskium.Capture.Controller.Stream.{read_stream}
use viskium.Capture.Contracts.{safe_in_process}
use viskium.Capture.Slot.{apply, close, offer}

abbrev small_stream : NegotiatedStream
small_stream = record {
  backend_id = "camera";
  width = 2;
  height = 2;
  fps = none;
  pixel_format = "gray8";
  stride = 2;
}

abbrev small_frame : BackendFrame
small_frame = record {
  payload = 1 ∷ 2 ∷ 3 ∷ 4 ∷ [];
  received_monotonic_ns = 7;
  width = 2;
  height = 2;
  stride = 2;
  pixel_format = "gray8";
}

-- A camera that streams; a stop is asked for at the given moment.
abbrev camera : ℕ → Env
camera stop_at = record {
  factory = λ _. FactoryReply.backend (
      CapabilitiesReply.capabilities (record {
        open_deadline = DeadlineCapability.enforced;
        read_deadline = DeadlineCapability.enforced;
        cooperative_close = true;
      }));
  opens = λ _. OpenReply.stream small_stream;
  reads = λ _. ReadReply.result (CaptureRead.frame small_frame);
  closes = λ _. CloseReply.returns 5;
  clock = λ n. some n;
  acquires = λ _. LeaseReply.granted;
  releases = λ _. true;
  gate = none;
  meanwhile = λ n. if n == stop_at then requests_stop ∷ [] else [];
}

-- One whose `close` raises.
abbrev broken_camera : ℕ → Env
broken_camera stop_at = record (camera stop_at) { closes = λ _. CloseReply.raises }

abbrev small_config : Config
small_config = record {
  policy = record default_camera_policy { warmup_frames = 1 };
  max_frame_bytes = 16;
  source_id = "front";
  estimated_backend_bytes = 0;
}

abbrev worker : Controller
worker = record (new_controller new_slot) { started = true; state = CameraState.opening }

worker-IsStarted : IsStarted new_slot worker
unfolding start new_controller
worker-IsStarted = refl

abbrev finished : Outcome (Unit {0}) × World
finished = run (camera 40) small_config 20 (begin worker)

finished_ok : finished.0 ≡ ok tt
unfolding run phase safe_in_process apply close offer reading pass ask note locked set_active
    get_active clock_ns valid_time act act_all new_controller set_state increment increment_counter
    mark_stopping set_reason set_state_because stop_decide stop_end resources_admit create_backend
    close_or_retain release_lease_if_safe schedule_retry deadline_ns validate_stream
    frame_matches_stream envelope offer_frame read_stream
finished_ok = refl

finished_deeds :
    finished.1.deeds
    ≡ Deed.released ∷ Deed.closed ∷ Deed.read ∷ Deed.read ∷ Deed.read ∷ Deed.opened ∷ Deed.made
      ∷ Deed.acquired ∷ []
unfolding run phase safe_in_process apply close offer reading pass ask note locked set_active
    get_active clock_ns valid_time act act_all new_controller set_state increment increment_counter
    mark_stopping set_reason set_state_because stop_decide stop_end resources_admit create_backend
    close_or_retain release_lease_if_safe schedule_retry deadline_ns validate_stream
    frame_matches_stream envelope offer_frame read_stream
finished_deeds = refl

abbrev failed_close : Outcome (Unit {0}) × World
failed_close = run (broken_camera 40) small_config 20 (begin worker)

failed_close_ok : failed_close.0 ≡ ok tt
unfolding run phase safe_in_process apply close offer reading pass ask note locked set_active
    get_active clock_ns valid_time act act_all new_controller set_state increment increment_counter
    mark_stopping set_reason set_state_because stop_decide stop_end resources_admit create_backend
    close_or_retain release_lease_if_safe schedule_retry deadline_ns validate_stream
    frame_matches_stream envelope offer_frame read_stream
failed_close_ok = refl

failed_close_deeds :
    failed_close.1.deeds
    ≡ Deed.abandoned ∷ Deed.read ∷ Deed.read ∷ Deed.read ∷ Deed.opened ∷ Deed.made ∷ Deed.acquired
      ∷ []
unfolding run phase safe_in_process apply close offer reading pass ask note locked set_active
    get_active clock_ns valid_time act act_all new_controller set_state increment increment_counter
    mark_stopping set_reason set_state_because stop_decide stop_end resources_admit create_backend
    close_or_retain release_lease_if_safe schedule_retry deadline_ns validate_stream
    frame_matches_stream envelope offer_frame read_stream
failed_close_deeds = refl

run_keeps_protocol_example :
    let (o, w) = run (camera 40) small_config 20 (begin worker) in
    (is_lawful (phase w.deeds) ≡ true) × (o ≢ raised)
run_keeps_protocol_example =
    run_keeps_protocol (camera 40) small_config 20 new_slot worker worker-IsStarted

run_leaves_no_backend_example :
    let w = (run (broken_camera 40) small_config 20 (begin worker)).1 in
    (is_resting (phase w.deeds) ≡ true)
    × (w.controller.lease_held ≡ is_held (phase w.deeds))
    × (is_some w.controller.retained_backend ≡ is_kept (phase w.deeds))
run_leaves_no_backend_example =
    run_leaves_no_backend (broken_camera 40) small_config 20 new_slot worker worker-IsStarted
      failed_close_ok

run_shuts_example :
    let w = (run (camera 40) small_config 20 (begin worker)).1 in
    (w.controller.frames.is_closed ≡ true)
    × (w.controller.frames.pending ≡ none)
    × (w.controller.negotiated_stream ≡ none)
    × (is_over w.controller.state ≡ true)
run_shuts_example =
    run_shuts (camera 40) small_config 20 new_slot worker worker-IsStarted finished_ok

-- A camera at which `stop` gives up waiting at moment 30, after it asked for the stop at 29.
abbrev late_camera : Env
late_camera = record (camera 29) {
  meanwhile = λ n. if n == 29 then requests_stop ∷ [] else if n == 30 then gives_up ∷ [] else [];
}

abbrev late_run : Outcome (Unit {0}) × World
late_run = run late_camera small_config 20 (begin worker)

late_run_ends : (late_run.0 ≡ ok tt) × (ltb 30 late_run.1.now ≡ true)
unfolding run phase safe_in_process apply close offer reading pass ask note locked set_active
    get_active clock_ns valid_time act act_all new_controller set_state increment increment_counter
    mark_stopping set_reason set_state_because stop_decide stop_end resources_admit create_backend
    close_or_retain release_lease_if_safe schedule_retry deadline_ns validate_stream
    frame_matches_stream envelope offer_frame read_stream
late_run_ends = (refl, refl)

stuck_is_final_example : is_stuck late_run.1.controller.state ≡ true
stuck_is_final_example =
    stuck_is_final late_camera small_config 20 (begin worker)
      (inr (30, omega arith, ground (arith, late_run_ends.1), refl))
