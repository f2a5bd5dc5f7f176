-- ===== src/Capture/Controller/Backend.antt =====
-- capture/controller.py: making and closing a backend, and the lease.
pub mod Stuck
pub mod Steps
pub mod Retry
pub mod Shut
use viskium.Prelude.{
  ℕ, ◌+◌, ◌-◌, ◌*◌, max, Option, none, some, Bool, true, false, not, ◌||◌, ◌&&◌, ◌==◌, ◌∷◌, ltb,
  is_some, if◌then◌else◌,
}
use viskium.Core.Value
use viskium.Capture.Contracts.{CameraState, safe_in_process}
use viskium.Capture.Contracts.Policy.{cooldown_ns}
use viskium.Capture.Contracts.Frames.{NegotiatedStream}
use viskium.Capture.Controller.Counters.{Counter}
use viskium.Capture.Controller.State.{Controller, increment}
use viskium.Capture.Controller.World.{
  CapabilitiesReply, FactoryReply, CloseReply, LeaseReply, GateReply, Env, Config, Deed, World, ok,
  raised, M, ◌>>=◌, ◌>>◌, pure, locked, reading, ask, stop_is_set, stop_wait, count, explain, enter,
  enter_because, clock_ns, note,
}

pub data FactoryResult : Type 0 where
  ready retry terminal : FactoryResult

-- The handle of a backend that the factory has made.
take_handle : M ℕ
take_handle w =
    (ok w.instances, record w { instances = w.instances + 1; deeds = Deed.made ∷ w.deeds })

module _ (env : Env) (config : Config) where
  judge_capabilities : ℕ → CapabilitiesReply → M (Option ℕ × FactoryResult)
  judge_capabilities b CapabilitiesReply.raises = do
    count env Counter.backend_failures
    enter_because env CameraState.failed "backend_capabilities_failed"
    pure (some b, terminal)
  judge_capabilities b CapabilitiesReply.invalid = do
    count env Counter.contract_violations
    enter_because env CameraState.failed "backend_capabilities_invalid"
    pure (some b, terminal)
  judge_capabilities b (CapabilitiesReply.capabilities c) =
      if safe_in_process c then pure (some b, ready) else do
        count env Counter.unsafe_backends
        enter_because env CameraState.failed "unsafe_backend_capabilities"
        pure (some b, terminal)

  judge_candidate : FactoryReply → M (Option ℕ × FactoryResult)
  unfolding judge_capabilities take_handle
  judge_candidate FactoryReply.raises = do
    count env Counter.backend_failures
    explain env "backend_factory_failed"
    pure (none, retry)
  judge_candidate FactoryReply.alien = do
    count env Counter.contract_violations
    enter_because env CameraState.failed "backend_protocol_invalid"
    pure (none, terminal)
  judge_candidate (FactoryReply.backend reply) = do
    b ← take_handle
    count env Counter.backend_instances
    judge_capabilities b reply

  -- `_create_backend`
  unfoldable pub create_backend : M (Option ℕ × FactoryResult)
  unfolding judge_candidate
  create_backend = do candidate ← ask env env.factory; judge_candidate candidate

  -- `_close_backend`, by the answer of `close`.
  judge_close : CloseReply → M Bool
  judge_close CloseReply.raises = do
    note Deed.abandoned
    count env Counter.backend_failures
    enter_because env CameraState.failed "backend_close_failed"
    pure false
  judge_close (CloseReply.returns elapsed) =
      if ltb config.policy.shutdown_timeout_ns elapsed
      then (do
        note Deed.abandoned
        count env Counter.contract_violations
        enter_because env CameraState.stuck "backend_close_deadline_violated"
        pure false)
      else do note Deed.closed; pure true

  -- The section of `_close_or_retain_backend`.
  retain : ℕ → Controller → Controller
  retain b c = elim c.retained_backend [
    | none ↦ record c { retained_backend = some b }
    | some other ↦ if other == b then c else record (increment Counter.contract_violations c) {
      state = CameraState.stuck;
      last_reason_code = some "retained_backend_invariant_failed";
    }
  ]

  retain_unless : ℕ → Bool → M Bool
  unfolding retain
  retain_unless b true = pure true
  retain_unless b false = do locked env (retain b); pure false

  -- `_close_or_retain_backend`
  unfoldable pub close_or_retain : ℕ → M Bool
  unfolding judge_close retain_unless
  close_or_retain b = do
    reply ← ask env env.closes
    close_ok ← judge_close reply
    retain_unless b close_ok

  judge_release : Bool → M Bool
  judge_release false = do
    enter_because env CameraState.stuck "camera_lease_release_failed"
    pure false
  judge_release true = do
    note Deed.released
    locked env (λ c. record c { lease_held = false })
    pure true

  -- `_release_lease_if_safe`
  unfoldable pub release_lease_if_safe : M Bool
  unfolding judge_release
  release_lease_if_safe = do
    unsafe ← reading env (λ c. not c.lease_held || is_some c.retained_backend)
    if unsafe then pure false else do released ← ask env env.releases; judge_release released

  raise_as : Value.Result ℕ → M ℕ
  raise_as (Value.ok n) w = (ok n, w)
  raise_as (Value.raise _) w = (raised, w)

  -- The delay goes to a wait whose end the environment decides, so that its length is not used.
  lengthen : Option ℕ → ℕ → M ℕ
  lengthen none delay = pure delay
  lengthen (some last) delay = do
    now ← clock_ns env
    pure (max delay (config.policy.minimum_reopen_interval_ns - (now - last)))

  -- `_schedule_retry`: whether to try again.
  unfoldable pub schedule_retry : ℕ → Option ℕ → M Bool
  unfolding raise_as lengthen
  schedule_retry failed_attempts last_open =
      if ltb config.policy.max_reopen_attempts failed_attempts
      then (do was_released ← release_lease_if_safe; enter env CameraState.failed; pure false)
      else do
        delay ← raise_as (cooldown_ns config.policy failed_attempts)
        lengthened ← lengthen last_open delay
        count env Counter.retries_scheduled
        enter env CameraState.cooldown
        stopped ← stop_wait env
        pure (not stopped)

  judge_admission : GateReply → M Bool
  judge_admission GateReply.raises = do
    enter_because env CameraState.failed "resource_admission_failed"
    pure false
  judge_admission GateReply.invalid = do
    enter_because env CameraState.failed "resource_admission_invalid"
    pure false
  judge_admission (GateReply.decision capture processing) =
      if capture && processing
      then pure true
      else do enter_because env CameraState.failed "resource_admission_denied"; pure false

  ask_gate : (ℕ → ℕ → GateReply) → Bool → M Bool
  unfolding judge_admission
  ask_gate gate true = pure true
  ask_gate gate false = do
    reply ← ask env (gate (config.estimated_backend_bytes + 2 * config.max_frame_bytes))
    judge_admission reply

  admit_by : Option (ℕ → ℕ → GateReply) → M Bool
  unfolding ask_gate
  admit_by none = pure true
  admit_by (some gate) = do stop ← stop_is_set env; ask_gate gate stop

  -- `_resources_admit`
  unfoldable pub resources_admit : M Bool
  unfolding admit_by
  resources_admit = admit_by env.gate
