-- ===== src/Capture/Controller/Open.antt =====
-- capture/controller.py: the part of `_run` from the call of `open` to the end of its stream.
pub mod Stuck
pub mod Steps
use viskium.Prelude.{
  ℕ, zero, suc, ◌+◌, Option, none, some, Bool, true, false, not, ◌&&◌, is_some, ltb, if◌then◌else◌,
}
use viskium.Capture.Contracts.{CameraState}
use viskium.Capture.Contracts.Frames.{NegotiatedStream}
use viskium.Capture.Slot.{close}
use viskium.Capture.Controller.Counters.{max_int64, Counter}
use viskium.Capture.Controller.State.{Controller, is_terminal}
use viskium.Capture.Controller.World.{
  OpenReply, LeaseReply, Env, Config, Deed, Outcome, ok, raised, paused, M, ◌>>=◌, ◌>>◌, pure,
  locked, reading, ask, stop_is_set, count, explain, enter, enter_because, clock_ns, note,
  set_active, get_active,
}
use viskium.Capture.Controller.Backend.{
  FactoryResult, ready, retry, terminal, create_backend, close_or_retain, release_lease_if_safe,
  schedule_retry, resources_admit,
}
use viskium.Capture.Controller.Offer.{StreamResult, deadline_ns, validate_stream}
use viskium.Capture.Controller.Stream.{read_stream}

-- The variables of the loop, but `active_backend` and `lease_held`.
pub record Attempts : Type 0 where
  pub failed_attempts : ℕ
  pub next_epoch : ℕ
  pub last_open_attempt_ns : Option ℕ

abbrev pub no_attempts : Attempts
no_attempts = record { failed_attempts = 0; next_epoch = 0; last_open_attempt_ns = none }

module _ (env : Env) (config : Config) (fuel : ℕ) where
  -- `_close_or_retain_backend(active_backend); active_backend = None`
  unfoldable pub close_active : ℕ → M Bool
  close_active b = do close_ok ← close_or_retain env config b; set_active none; pure close_ok

  unfoldable pub close_if_active : Option ℕ → M (Unit {0})
  unfolding close_active
  close_if_active none = pure tt
  close_if_active (some b) = do close_ok ← close_active b; pure tt

  -- `none` leaves the loop; otherwise it goes on with these variables.
  unfoldable pub stop_here : M (Option Attempts)
  stop_here = pure none

  pub close_and_stop : ℕ → M (Option Attempts)
  unfolding close_active stop_here
  close_and_stop b = do close_ok ← close_active b; stop_here

  continue_if : Bool → Attempts → M (Option Attempts)
  continue_if true a = pure (some a)
  continue_if false a = pure none

  -- `failed_attempts += 1`, then `_schedule_retry`.
  unfoldable pub fail : Attempts → M (Option Attempts)
  unfolding continue_if
  fail a = do
    let a' : Attempts = record a { failed_attempts = a.failed_attempts + 1 }
    going_on ← schedule_retry env config a'.failed_attempts a'.last_open_attempt_ns
    continue_if going_on a'

  -- After `_read_stream` and the close of its backend.
  after_stream : Attempts → StreamResult → Bool → M (Option Attempts)
  unfolding stop_here fail
  after_stream a StreamResult.stopped stable = stop_here
  after_stream a StreamResult.slot_closed stable = stop_here
  after_stream a StreamResult.stuck stable = do enter env CameraState.stuck; stop_here
  after_stream a StreamResult.fatal stable = do enter env CameraState.failed; stop_here
  after_stream a StreamResult.retry stable =
      fail (if stable then record a { failed_attempts = 0 } else a)

  after_close : Attempts → StreamResult → Bool → Bool → M (Option Attempts)
  unfolding after_stream stop_here
  after_close a r stable true = after_stream a r stable
  after_close a r stable false = stop_here

  -- A stream that `_validate_stream` let through.
  use_stream : Attempts → ℕ → ℕ → NegotiatedStream → M (Option Attempts)
  unfolding close_active after_close
  use_stream a b opened_ns s = do
    count env Counter.open_successes
    let epoch : ℕ = a.next_epoch
    locked env (λ c. record c { stream_epoch = some epoch; negotiated_stream = some s })
    (r, stable) ← read_stream env config s epoch opened_ns fuel
    close_ok ← close_active b
    locked env (λ c. record c { negotiated_stream = none })
    after_close (record a { next_epoch = epoch + 1 }) r stable close_ok

  after_validation : Attempts → ℕ → ℕ → Option NegotiatedStream → M (Option Attempts)
  unfolding close_and_stop use_stream
  after_validation a b opened_ns none = close_and_stop b
  after_validation a b opened_ns (some s) = use_stream a b opened_ns s

  -- `open` raised: the reason by the class of the error, then a close and a retry.
  blame_open : OpenReply → M (Unit {0})
  blame_open OpenReply.deadline_exceeded = explain env "open_deadline_exceeded"
  blame_open OpenReply.open_error = explain env "open_failed"
  blame_open OpenReply.capture_error = explain env "backend_open_failed"
  blame_open _ = do count env Counter.backend_failures; explain env "backend_open_unexpected_error"

  retry_if : Bool → Attempts → M (Option Attempts)
  unfolding fail stop_here
  retry_if true a = fail a
  retry_if false a = stop_here

  open_failed : Attempts → ℕ → OpenReply → M (Option Attempts)
  unfolding blame_open close_active retry_if
  open_failed a b reply = do
    count env Counter.open_failures
    blame_open reply
    close_ok ← close_active b
    retry_if close_ok a

  pub judge_open : Attempts → ℕ → ℕ → OpenReply → M (Option Attempts)
  unfolding open_failed after_validation
  judge_open a b opened_ns (OpenReply.stream s) = do
    checked ← validate_stream env config (OpenReply.stream s)
    after_validation a b opened_ns checked
  judge_open a b opened_ns OpenReply.invalid = do
    checked ← validate_stream env config OpenReply.invalid
    after_validation a b opened_ns checked
  judge_open a b opened_ns reply = open_failed a b reply

  abbrev is_deadline_error : OpenReply → Bool
  is_deadline_error OpenReply.deadline_exceeded = true
  is_deadline_error _ = false

  unless_late : Bool → Attempts → ℕ → ℕ → OpenReply → M (Option Attempts)
  unfolding close_and_stop judge_open
  unless_late true a b finished_ns reply = do
    count env Counter.contract_violations
    enter_because env CameraState.stuck "backend_open_deadline_violated"
    close_and_stop b
  unless_late false a b finished_ns reply = judge_open a b finished_ns reply

  unless_backwards : Bool → Bool → Attempts → ℕ → ℕ → OpenReply → M (Option Attempts)
  unfolding close_and_stop unless_late
  unless_backwards true late a b finished_ns reply = do
    enter_because env CameraState.failed "monotonic_clock_moved_backwards"
    close_and_stop b
  unless_backwards false late a b finished_ns reply = unless_late late a b finished_ns reply

  -- From the clock reading before `open` on.
  unfoldable pub open_backend : Attempts → ℕ → M (Option Attempts)
  unfolding unless_backwards
  open_backend a b = do
    started_ns ← clock_ns env
    count env Counter.open_attempts
    note Deed.opened
    reply ← ask env env.opens
    finished_ns ← clock_ns env
    let late =
        ltb (deadline_ns started_ns config.policy.open_timeout_ns) finished_ns
        && not (is_deadline_error reply)
    unless_backwards (ltb finished_ns started_ns) late
        (record a { last_open_attempt_ns = some started_ns }) b finished_ns reply
