-- ===== src/Capture/Controller/Stream/Stuck.antt =====
-- capture/controller.py: reading a stream leaves STUCK as it is.
use viskium.Prelude.{
  ℕ, zero, suc, ◌==◌, Option, none, some, Bool, true, false, String, ltb, leb, ◌-◌,
}
use viskium.Capture.Contracts.Frames.{NegotiatedStream, BackendFrame, CaptureRead}
use viskium.Capture.Controller.World.{ReadReply, Env, Config, World, M}
use viskium.Capture.Controller.Stuck.{
  Lasts, Calm, bind, return, reading-Calm, ask-Calm, count-Calm, explain-Calm, enter-Calm,
  enter_because-Calm, clock-Calm, note-Calm,
}
use viskium.Capture.Controller.Offer.{StreamResult, frame_matches_stream}
use viskium.Capture.Controller.Offer.Stuck.{offer_frame-Calm}
use viskium.Capture.Controller.Stream.{
  Progress, Turn, again, done, resume, after_offer, publish, enter_when_warm, discard, use_frame,
  accept_frame, on_frame, stale_or_resume, after_wait, wait_if, on_timeout, on_result, on_reply,
  unless_stopped, unless_late, unless_backwards, judge_read, read_error, after_read, read_once,
  turn_if_clear, read_turn, next_turn, read_loop, read_stream,
}

module _ {env : Env} (config : Config) {K : World → Type 0} (l : Lasts env K)
    (stream : NegotiatedStream) (epoch opened_ns : ℕ) where
  resume-Calm : (n : ℕ) → Calm K (resume env config stream epoch opened_ns n)
  unfolding resume
  resume-Calm n = enter-Calm l _

  after_offer-Calm :
      (p : Progress) (at : ℕ) (r : Option StreamResult)
      → Calm K (after_offer env config stream epoch opened_ns p at r)
  unfolding after_offer
  after_offer-Calm p at (some r) = return
  after_offer-Calm p at none = bind (enter-Calm l _) λ _. return

  publish-Calm :
      (p : Progress) (f : BackendFrame) (at : ℕ)
      → Calm K (publish env config stream epoch opened_ns p f at)
  unfolding publish
  publish-Calm p f at =
      bind (offer_frame-Calm config l f stream epoch p.sequence) (after_offer-Calm p at)

  enter_when_warm-Calm : (b : Bool) → Calm K (enter_when_warm env config stream epoch opened_ns b)
  unfolding enter_when_warm
  enter_when_warm-Calm true = enter-Calm l _
  enter_when_warm-Calm false = return

  discard-Calm : (p : Progress) (at : ℕ) → Calm K (discard env config stream epoch opened_ns p at)
  unfolding discard
  discard-Calm p at =
      bind (count-Calm l _) λ _. bind (enter_when_warm-Calm (p.warmup_remaining == 1)) λ _. return

  use_frame-Calm :
      (b : Bool) (p : Progress) (f : BackendFrame) (at : ℕ)
      → Calm K (use_frame env config stream epoch opened_ns b p f at)
  unfolding use_frame
  use_frame-Calm true p f at = publish-Calm p f at
  use_frame-Calm false p f at = discard-Calm p at

  accept_frame-Calm :
      (b : Bool) (p : Progress) (f : BackendFrame) (at : ℕ)
      → Calm K (accept_frame env config stream epoch opened_ns b p f at)
  unfolding accept_frame
  accept_frame-Calm true p f at =
      bind (count-Calm l _) λ _. use_frame-Calm (p.warmup_remaining == 0) p f at
  accept_frame-Calm false p f at = bind (count-Calm l _) λ _. bind (explain-Calm l _) λ _. return

  on_frame-Calm :
      (p : Progress) (f : BackendFrame) (at : ℕ)
      → Calm K (on_frame env config stream epoch opened_ns p f at)
  unfolding on_frame
  on_frame-Calm p f at = accept_frame-Calm (frame_matches_stream env config f stream) p f at

  stale_or_resume-Calm :
      (b : Bool) (p : Progress) (now : ℕ)
      → Calm K (stale_or_resume env config stream epoch opened_ns b p now)
  unfolding stale_or_resume
  stale_or_resume-Calm true p now = bind (explain-Calm l _) λ _. return
  stale_or_resume-Calm false p now = bind (resume-Calm p.warmup_remaining) λ _. return

  after_wait-Calm :
      (p : Progress) (at : ℕ) (b : Bool)
      → Calm K (after_wait env config stream epoch opened_ns p at b)
  unfolding after_wait
  after_wait-Calm p at true = return
  after_wait-Calm p at false = bind (clock-Calm l) λ now.
      stale_or_resume-Calm (leb config.policy.stale_after_ns (now - p.last_frame_progress_ns)) p now

  wait_if-Calm : (b : Bool) → Calm K (wait_if env config stream epoch opened_ns b)
  unfolding wait_if
  wait_if-Calm true = reading-Calm l (λ c. c.stop_requested)
  wait_if-Calm false = return

  on_timeout-Calm :
      (p : Progress) (r : String) (deadline at : ℕ)
      → Calm K (on_timeout env config stream epoch opened_ns p r deadline at)
  unfolding on_timeout
  on_timeout-Calm p r deadline at = bind (count-Calm l _) λ _.
      bind (enter_because-Calm l _ _)
        λ _. bind (wait_if-Calm (ltb at deadline)) λ b. after_wait-Calm p at b

  on_result-Calm :
      (p : Progress) (r : CaptureRead) (deadline at : ℕ)
      → Calm K (on_result env config stream epoch opened_ns p r deadline at)
  unfolding on_result
  on_result-Calm p (CaptureRead.frame f) deadline at = on_frame-Calm p f at
  on_result-Calm p (CaptureRead.timeout r) deadline at = on_timeout-Calm p r deadline at
  on_result-Calm p (CaptureRead.disconnected r) deadline at =
      bind (count-Calm l _) λ _. bind (enter_because-Calm l _ _) λ _. return
  on_result-Calm p (CaptureRead.recoverable_error r) deadline at =
      bind (count-Calm l _) λ _. bind (enter_because-Calm l _ _) λ _. return
  on_result-Calm p (CaptureRead.fatal_error r) deadline at =
      bind (count-Calm l _) λ _. bind (explain-Calm l _) λ _. return

  on_reply-Calm :
      (p : Progress) (r : ReadReply) (deadline at : ℕ)
      → Calm K (on_reply env config stream epoch opened_ns p r deadline at)
  unfolding on_reply
  on_reply-Calm p (ReadReply.result r) deadline at = on_result-Calm p r deadline at
  on_reply-Calm p ReadReply.deadline_exceeded deadline at =
      on_timeout-Calm p "read_deadline_exceeded" deadline at
  on_reply-Calm p _ deadline at = bind (count-Calm l _) λ _. bind (explain-Calm l _) λ _. return

  unless_stopped-Calm :
      (b : Bool) (p : Progress) (r : ReadReply) (deadline at : ℕ)
      → Calm K (unless_stopped env config stream epoch opened_ns b p r deadline at)
  unfolding unless_stopped
  unless_stopped-Calm true p r deadline at = return
  unless_stopped-Calm false p r deadline at = on_reply-Calm p r deadline at

  unless_late-Calm :
      (b : Bool) (p : Progress) (r : ReadReply) (deadline at : ℕ)
      → Calm K (unless_late env config stream epoch opened_ns b p r deadline at)
  unfolding unless_late
  unless_late-Calm true p r deadline at =
      bind (count-Calm l _) λ _. bind (enter_because-Calm l _ _) λ _. return
  unless_late-Calm false p r deadline at =
      bind (reading-Calm l (λ c. c.stop_requested)) λ stop. unless_stopped-Calm stop p r deadline at

  unless_backwards-Calm :
      (b late : Bool) (p : Progress) (r : ReadReply) (deadline at : ℕ)
      → Calm K (unless_backwards env config stream epoch opened_ns b late p r deadline at)
  unfolding unless_backwards
  unless_backwards-Calm true late p r deadline at = bind (explain-Calm l _) λ _. return
  unless_backwards-Calm false late p r deadline at = unless_late-Calm late p r deadline at

  judge_read-Calm :
      (p : Progress) (started deadline : ℕ) (reported : Bool) (r : ReadReply)
      → Calm K (judge_read env config stream epoch opened_ns p started deadline reported r)
  unfolding judge_read
  judge_read-Calm p started deadline reported r =
      bind (clock-Calm l) λ at. unless_backwards-Calm _ _ p r deadline at

  read_error-Calm : (reason : String) → Calm K (read_error env config stream epoch opened_ns reason)
  unfolding read_error
  read_error-Calm reason =
      bind (count-Calm l _) λ _. bind (explain-Calm l _) λ _. bind (clock-Calm l) λ _. return

  after_read-Calm :
      (p : Progress) (started deadline : ℕ) (r : ReadReply)
      → Calm K (after_read env config stream epoch opened_ns p started deadline r)
  unfolding after_read
  after_read-Calm p started deadline ReadReply.capture_error = read_error-Calm "backend_read_failed"
  after_read-Calm p started deadline ReadReply.unexpected_error =
      read_error-Calm "backend_read_unexpected_error"
  after_read-Calm p started deadline ReadReply.deadline_exceeded =
      judge_read-Calm p started deadline true ReadReply.deadline_exceeded
  after_read-Calm p started deadline r = judge_read-Calm p started deadline false r

  read_once-Calm : (p : Progress) → Calm K (read_once env config stream epoch opened_ns p)
  unfolding read_once
  read_once-Calm p = bind (clock-Calm l) λ started.
      bind (count-Calm l _)
        λ _. bind (note-Calm l _) λ _. bind (ask-Calm l env.reads) (after_read-Calm p started _)

  turn_if_clear-Calm :
      (b : Bool) (p : Progress) → Calm K (turn_if_clear env config stream epoch opened_ns b p)
  unfolding turn_if_clear
  turn_if_clear-Calm true p = bind (clock-Calm l) λ _. return
  turn_if_clear-Calm false p = read_once-Calm p

  read_turn-Calm : (p : Progress) → Calm K (read_turn env config stream epoch opened_ns p)
  unfolding read_turn
  read_turn-Calm p = bind (reading-Calm l (λ c. c.stop_requested)) λ stop. turn_if_clear-Calm stop p

  next_turn-Calm :
      (resume_at : Progress → M (StreamResult × Bool))
      → ((p : Progress) → Calm K (resume_at p))
      → (t : Turn) → Calm K (next_turn env config stream epoch opened_ns resume_at t)
  unfolding next_turn
  next_turn-Calm resume_at h (again p) = h p
  next_turn-Calm resume_at h (done r stable) = return

  read_loop-Calm :
      (fuel : ℕ) (p : Progress) → Calm K (read_loop env config stream epoch opened_ns fuel p)
  unfolding read_loop
  read_loop-Calm zero p = record { keeps = λ w h. h }
  read_loop-Calm (suc fuel) p = record {
    keeps = (bind (read_turn-Calm p) (next_turn-Calm _ (read_loop-Calm fuel))).keeps;
  }

  pub read_stream-Calm : (fuel : ℕ) → Calm K (read_stream env config stream epoch opened_ns fuel)
  unfolding read_stream
  read_stream-Calm fuel = bind (resume-Calm _) λ _. read_loop-Calm fuel _
