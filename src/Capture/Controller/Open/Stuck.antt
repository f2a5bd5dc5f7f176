-- ===== src/Capture/Controller/Open/Stuck.antt =====
-- capture/controller.py: opening a backend and using its stream leave STUCK as it is.
use viskium.Prelude.{ℕ, Option, none, some, Bool, true, false}
use viskium.Capture.Contracts.Frames.{NegotiatedStream}
use viskium.Capture.Controller.World.{OpenReply, Env, Config, World}
use viskium.Capture.Controller.Stuck.{
  Lasts, Calm, bind, return, locked-Calm, ask-Calm, count-Calm, explain-Calm, enter-Calm,
  enter_because-Calm, clock-Calm, note-Calm, set_active-Calm,
}
use viskium.Capture.Controller.Backend.Stuck.{close_or_retain-Calm, schedule_retry-Calm}
use viskium.Capture.Controller.Offer.{StreamResult}
use viskium.Capture.Controller.Offer.Stuck.{validate_stream-Calm}
use viskium.Capture.Controller.Stream.Stuck.{read_stream-Calm}
use viskium.Capture.Controller.Open.{
  Attempts, close_active, close_if_active, stop_here, close_and_stop, continue_if, fail,
  after_stream, after_close, use_stream, after_validation, blame_open, retry_if, open_failed,
  judge_open, unless_late, unless_backwards, open_backend,
}

module _ {env : Env} (config : Config) (fuel : ℕ) {K : World → Type 0} (l : Lasts env K) where
  close_active-Calm : (b : ℕ) → Calm K (close_active env config fuel b)
  unfolding close_active
  close_active-Calm b =
      bind (close_or_retain-Calm config l b) λ _. bind (set_active-Calm l _) λ _. return

  pub close_if_active-Calm : (b : Option ℕ) → Calm K (close_if_active env config fuel b)
  unfolding close_if_active
  close_if_active-Calm none = return
  close_if_active-Calm (some b) = bind (close_active-Calm b) λ _. return

  pub stop_here-Calm : Calm K (stop_here env config fuel)
  unfolding stop_here
  stop_here-Calm = return

  close_and_stop-Calm : (b : ℕ) → Calm K (close_and_stop env config fuel b)
  unfolding close_and_stop
  close_and_stop-Calm b = bind (close_active-Calm b) λ _. stop_here-Calm

  continue_if-Calm : (b : Bool) (a : Attempts) → Calm K (continue_if env config fuel b a)
  unfolding continue_if
  continue_if-Calm true a = return
  continue_if-Calm false a = return

  pub fail-Calm : (a : Attempts) → Calm K (fail env config fuel a)
  unfolding fail
  fail-Calm a = bind (schedule_retry-Calm config l _ _) λ b. continue_if-Calm b _

  after_stream-Calm :
      (a : Attempts) (r : StreamResult) (stable : Bool)
      → Calm K (after_stream env config fuel a r stable)
  unfolding after_stream
  after_stream-Calm a StreamResult.stopped stable = stop_here-Calm
  after_stream-Calm a StreamResult.slot_closed stable = stop_here-Calm
  after_stream-Calm a StreamResult.stuck stable = bind (enter-Calm l _) λ _. stop_here-Calm
  after_stream-Calm a StreamResult.fatal stable = bind (enter-Calm l _) λ _. stop_here-Calm
  after_stream-Calm a StreamResult.retry stable = fail-Calm _

  after_close-Calm :
      (a : Attempts) (r : StreamResult) (stable close_ok : Bool)
      → Calm K (after_close env config fuel a r stable close_ok)
  unfolding after_close
  after_close-Calm a r stable true = after_stream-Calm a r stable
  after_close-Calm a r stable false = stop_here-Calm

  use_stream-Calm :
      (a : Attempts) (b opened_ns : ℕ) (s : NegotiatedStream)
      → Calm K (use_stream env config fuel a b opened_ns s)
  unfolding use_stream
  use_stream-Calm a b opened_ns s = bind (count-Calm l _) λ _.
      bind (locked-Calm l _ (λ c h. h)) λ _.
        bind (read_stream-Calm config l s a.next_epoch opened_ns fuel) λ r.
          bind (close_active-Calm b)
            λ close_ok. bind (locked-Calm l _ (λ c h. h)) λ _. after_close-Calm _ _ _ close_ok

  after_validation-Calm :
      (a : Attempts) (b opened_ns : ℕ) (s : Option NegotiatedStream)
      → Calm K (after_validation env config fuel a b opened_ns s)
  unfolding after_validation
  after_validation-Calm a b opened_ns none = close_and_stop-Calm b
  after_validation-Calm a b opened_ns (some s) = use_stream-Calm a b opened_ns s

  blame_open-Calm : (r : OpenReply) → Calm K (blame_open env config fuel r)
  unfolding blame_open
  blame_open-Calm OpenReply.deadline_exceeded = explain-Calm l _
  blame_open-Calm OpenReply.open_error = explain-Calm l _
  blame_open-Calm OpenReply.capture_error = explain-Calm l _
  blame_open-Calm _ = bind (count-Calm l _) λ _. explain-Calm l _

  retry_if-Calm : (b : Bool) (a : Attempts) → Calm K (retry_if env config fuel b a)
  unfolding retry_if
  retry_if-Calm true a = fail-Calm a
  retry_if-Calm false a = stop_here-Calm

  open_failed-Calm :
      (a : Attempts) (b : ℕ) (r : OpenReply) → Calm K (open_failed env config fuel a b r)
  unfolding open_failed
  open_failed-Calm a b r = bind (count-Calm l _) λ _.
      bind (blame_open-Calm r) λ _. bind (close_active-Calm b) λ close_ok. retry_if-Calm close_ok a

  judge_open-Calm :
      (a : Attempts) (b opened_ns : ℕ) (r : OpenReply)
      → Calm K (judge_open env config fuel a b opened_ns r)
  unfolding judge_open
  judge_open-Calm a b opened_ns (OpenReply.stream s) =
      bind (validate_stream-Calm config l _) (after_validation-Calm a b opened_ns)
  judge_open-Calm a b opened_ns OpenReply.invalid =
      bind (validate_stream-Calm config l _) (after_validation-Calm a b opened_ns)
  judge_open-Calm a b opened_ns r = open_failed-Calm a b r

  unless_late-Calm :
      (late : Bool) (a : Attempts) (b at : ℕ) (r : OpenReply)
      → Calm K (unless_late env config fuel late a b at r)
  unfolding unless_late
  unless_late-Calm true a b at r =
      bind (count-Calm l _) λ _. bind (enter_because-Calm l _ _) λ _. close_and_stop-Calm b
  unless_late-Calm false a b at r = judge_open-Calm a b at r

  unless_backwards-Calm :
      (backwards late : Bool) (a : Attempts) (b at : ℕ) (r : OpenReply)
      → Calm K (unless_backwards env config fuel backwards late a b at r)
  unfolding unless_backwards
  unless_backwards-Calm true late a b at r =
      bind (enter_because-Calm l _ _) λ _. close_and_stop-Calm b
  unless_backwards-Calm false late a b at r = unless_late-Calm late a b at r

  pub open_backend-Calm : (a : Attempts) (b : ℕ) → Calm K (open_backend env config fuel a b)
  unfolding open_backend
  open_backend-Calm a b = bind (clock-Calm l) λ _. bind (count-Calm l _) λ _.
      bind (note-Calm l _) λ _.
        bind (ask-Calm l env.opens)
          λ r. bind (clock-Calm l) λ at. unless_backwards-Calm _ _ _ b at r
