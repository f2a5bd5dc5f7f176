-- ===== src/Capture/Controller/Stream.antt =====
-- capture/controller.py: reading one open stream, `_read_stream`.
pub mod Stuck
pub mod Steps
use viskium.Prelude.{
  ℕ, zero, suc, ◌+◌, ◌-◌, ◌*◌, String, Option, none, some, Bool, true, false, not, ◌&&◌, ◌||◌, ◌==◌,
  leb, ltb, length, [], min, if◌then◌else◌,
}
use Prim.Native.Nat.{◌/◌, ◌%◌}
use Prim.Native.String.{◌++◌}
use text.Mathlib.Text.{◌==◌ as str_eq}
use viskium.Core.Envelope.{FrameEnvelope, TimestampQuality}
use viskium.Capture.Contracts.{CameraState}
use viskium.Capture.Contracts.Frames.{NegotiatedStream, BackendFrame, CaptureRead}
use viskium.Capture.Slot.{OfferStatus, FrameOffer, LatestFrameSlot, offer}
use viskium.Capture.Controller.Counters.{max_int64, Counter}
use viskium.Capture.Controller.State.{Controller}
use viskium.Capture.Controller.World.{
  OpenReply, ReadReply, Env, Config, Deed, World, ok, paused, M, ◌>>=◌, ◌>>◌, pure, pass, locked,
  reading, ask, stop_is_set, stop_wait, count, explain, enter, enter_because, clock_ns, note,
}
use viskium.Capture.Controller.Offer.{
  StreamResult, stopped, retry, fatal, stuck, slot_closed, deadline_ns, frame_matches_stream,
  offer_frame,
}

-- The variables of the loop.
pub record Progress : Type 0 where
  pub warmup_remaining : ℕ
  pub sequence : ℕ
  pub last_frame_progress_ns : ℕ

-- A turn of the loop continues, or returns the result and whether the stream was stable.
pub data Turn : Type 0 where
  again : Progress → Turn
  done : StreamResult → Bool → Turn

module _ (env : Env) (config : Config) where
  -- The rest of the method is for one stream, opened at `opened_ns`.
  module _ (stream : NegotiatedStream) (epoch opened_ns : ℕ) where
    is_stable : ℕ → Bool
    is_stable at = leb config.policy.stable_reset_after_ns (at - opened_ns)

    -- `WARMING if warmup_remaining else STREAMING`
    resume : ℕ → M (Unit {0})
    resume remaining =
        enter env (if remaining == 0 then CameraState.streaming else CameraState.warming)

    -- A frame that is published, and one that is discarded to warm the camera up.
    after_offer : Progress → ℕ → Option StreamResult → M Turn
    after_offer p finished_ns (some r) = pure (done r (is_stable finished_ns))
    after_offer p finished_ns none = do
      enter env CameraState.streaming
      pure (again (record p { sequence = p.sequence + 1; last_frame_progress_ns = finished_ns }))

    publish : Progress → BackendFrame → ℕ → M Turn
    unfolding after_offer
    publish p f finished_ns = do
      answer ← offer_frame env config f stream epoch p.sequence
      after_offer p finished_ns answer

    enter_when_warm : Bool → M (Unit {0})
    enter_when_warm true = enter env CameraState.streaming
    enter_when_warm false = pure tt

    discard : Progress → ℕ → M Turn
    unfolding enter_when_warm
    discard p finished_ns = do
      count env Counter.warmup_frames_discarded
      enter_when_warm (p.warmup_remaining == 1)
      pure (
          again (record p {
            warmup_remaining = p.warmup_remaining - 1;
            last_frame_progress_ns = finished_ns;
          }))

    use_frame : Bool → Progress → BackendFrame → ℕ → M Turn
    unfolding publish discard
    use_frame true p f finished_ns = publish p f finished_ns
    use_frame false p f finished_ns = discard p finished_ns

    accept_frame : Bool → Progress → BackendFrame → ℕ → M Turn
    unfolding use_frame
    accept_frame true p f finished_ns = do
      count env Counter.frames_read
      use_frame (p.warmup_remaining == 0) p f finished_ns
    accept_frame false p f finished_ns = do
      count env Counter.contract_violations
      explain env "backend_frame_contract_invalid"
      pure (done fatal (is_stable finished_ns))

    on_frame : Progress → BackendFrame → ℕ → M Turn
    unfolding accept_frame
    on_frame p f finished_ns =
        accept_frame (frame_matches_stream env config f stream) p f finished_ns

    -- A timeout: wait for the rest of the deadline, then see whether the stream is stale.
    stale_or_resume : Bool → Progress → ℕ → M Turn
    unfolding resume
    stale_or_resume true p now = do explain env "capture_stale"; pure (done retry (is_stable now))
    stale_or_resume false p now = do resume p.warmup_remaining; pure (again p)

    after_wait : Progress → ℕ → Bool → M Turn
    unfolding stale_or_resume
    after_wait p finished_ns true = pure (done stopped (is_stable finished_ns))
    after_wait p finished_ns false = do
      now ← clock_ns env
      stale_or_resume (leb config.policy.stale_after_ns (now - p.last_frame_progress_ns)) p now

    wait_if : Bool → M Bool
    wait_if true = stop_wait env
    wait_if false = pure false

    on_timeout : Progress → String → ℕ → ℕ → M Turn
    unfolding after_wait wait_if
    on_timeout p reason deadline finished_ns = do
      count env Counter.read_timeouts
      enter_because env CameraState.degraded reason
      interrupted ← wait_if (ltb finished_ns deadline)
      after_wait p finished_ns interrupted

    on_result : Progress → CaptureRead → ℕ → ℕ → M Turn
    unfolding on_frame on_timeout
    on_result p (CaptureRead.frame f) deadline finished_ns = on_frame p f finished_ns
    on_result p (CaptureRead.timeout reason) deadline finished_ns =
        on_timeout p reason deadline finished_ns
    on_result p (CaptureRead.disconnected reason) deadline finished_ns = do
      count env Counter.disconnects
      enter_because env CameraState.degraded reason
      pure (done retry (is_stable finished_ns))
    on_result p (CaptureRead.recoverable_error reason) deadline finished_ns = do
      count env Counter.recoverable_errors
      enter_because env CameraState.degraded reason
      pure (done retry (is_stable finished_ns))
    on_result p (CaptureRead.fatal_error reason) deadline finished_ns = do
      count env Counter.fatal_errors
      explain env reason
      pure (done fatal (is_stable finished_ns))

    on_reply : Progress → ReadReply → ℕ → ℕ → M Turn
    unfolding on_result on_timeout
    on_reply p (ReadReply.result r) deadline finished_ns = on_result p r deadline finished_ns
    on_reply p ReadReply.deadline_exceeded deadline finished_ns =
        on_timeout p "read_deadline_exceeded" deadline finished_ns
    on_reply p _ deadline finished_ns = do
      count env Counter.contract_violations
      explain env "backend_read_result_invalid"
      pure (done fatal (is_stable finished_ns))

    -- After a read that raised no error but perhaps the deadline's: `late` and `backwards` say how
    -- its two clock readings compare.
    unless_stopped : Bool → Progress → ReadReply → ℕ → ℕ → M Turn
    unfolding on_reply
    unless_stopped true p reply deadline finished_ns = pure (done stopped (is_stable finished_ns))
    unless_stopped false p reply deadline finished_ns = on_reply p reply deadline finished_ns

    unless_late : Bool → Progress → ReadReply → ℕ → ℕ → M Turn
    unfolding unless_stopped
    unless_late true p reply deadline finished_ns = do
      count env Counter.contract_violations
      enter_because env CameraState.stuck "backend_read_deadline_violated"
      pure (done stuck false)
    unless_late false p reply deadline finished_ns = do
      stop ← stop_is_set env
      unless_stopped stop p reply deadline finished_ns

    unless_backwards : Bool → Bool → Progress → ReadReply → ℕ → ℕ → M Turn
    unfolding unless_late
    unless_backwards true late p reply deadline finished_ns = do
      explain env "monotonic_clock_moved_backwards"
      pure (done fatal false)
    unless_backwards false late p reply deadline finished_ns =
        unless_late late p reply deadline finished_ns

    judge_read : Progress → ℕ → ℕ → Bool → ReadReply → M Turn
    unfolding unless_backwards
    judge_read p started_ns deadline deadline_reported reply = do
      finished_ns ← clock_ns env
      let late = ltb deadline finished_ns && not deadline_reported
      unless_backwards (ltb finished_ns started_ns) late p reply deadline finished_ns

    read_error : String → M Turn
    read_error reason = do
      count env Counter.backend_failures
      explain env reason
      finished_ns ← clock_ns env
      pure (done retry (is_stable finished_ns))

    after_read : Progress → ℕ → ℕ → ReadReply → M Turn
    unfolding judge_read read_error
    after_read p started_ns deadline ReadReply.capture_error = read_error "backend_read_failed"
    after_read p started_ns deadline ReadReply.unexpected_error =
        read_error "backend_read_unexpected_error"
    after_read p started_ns deadline ReadReply.deadline_exceeded =
        judge_read p started_ns deadline true ReadReply.deadline_exceeded
    after_read p started_ns deadline reply = judge_read p started_ns deadline false reply

    -- One turn, once the stop event was found clear.
    read_once : Progress → M Turn
    unfolding after_read
    read_once p = do
      started_ns ← clock_ns env
      count env Counter.read_attempts
      note Deed.read
      reply ← ask env env.reads
      after_read p started_ns (deadline_ns started_ns config.policy.read_timeout_ns) reply

    turn_if_clear : Bool → Progress → M Turn
    unfolding read_once
    turn_if_clear true p = do
      finished_ns ← clock_ns env
      pure (done stopped (is_stable finished_ns))
    turn_if_clear false p = read_once p

    read_turn : Progress → M Turn
    unfolding turn_if_clear
    read_turn p = do stop ← stop_is_set env; turn_if_clear stop p

    next_turn : (Progress → M (StreamResult × Bool)) → Turn → M (StreamResult × Bool)
    next_turn resume_at (again p) = resume_at p
    next_turn resume_at (done r stable) = pure (r, stable)

    read_loop : ℕ → Progress → M (StreamResult × Bool)
    unfolding read_turn next_turn
    read_loop zero p w = (paused, w)
    read_loop (suc fuel) p w = (read_turn p >>= next_turn (read_loop fuel)) w

    -- `_read_stream`
    unfoldable pub read_stream : ℕ → M (StreamResult × Bool)
    unfolding resume read_loop is_stable
    read_stream fuel = do
      resume config.policy.warmup_frames
      read_loop fuel (record {
        warmup_remaining = config.policy.warmup_frames;
        sequence = 0;
        last_frame_progress_ns = opened_ns;
      })
