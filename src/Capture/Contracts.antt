-- ===== src/Capture/Contracts.antt =====
-- capture/contracts.py: the enumerations, and `CameraPolicy` with its checks and retry delay.
pub mod Policy
pub mod Frames
pub mod Checks
mod Tests
use viskium.Prelude.{Bool, true, false, ◌&&◌}

pub data CameraState : Type 0 where
  closed opening warming streaming degraded cooldown stopping failed stuck : CameraState

pub data DeadlineCapability : Type 0 where
  enforced best_effort no_deadline : DeadlineCapability

pub data ReadStatus : Type 0 where
  frame timeout disconnected recoverable_error fatal_error : ReadStatus

pub record CaptureCapabilities : Type 0 where
  pub open_deadline : DeadlineCapability
  pub read_deadline : DeadlineCapability
  pub cooperative_close : Bool

abbrev is_enforced : DeadlineCapability → Bool
is_enforced enforced = true
is_enforced _ = false

unfoldable pub safe_in_process : CaptureCapabilities → Bool
safe_in_process c =
    is_enforced c.open_deadline && is_enforced c.read_deadline && c.cooperative_close
