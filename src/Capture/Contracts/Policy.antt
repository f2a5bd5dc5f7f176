-- ===== src/Capture/Contracts/Policy.antt =====
-- capture/contracts.py: `CameraPolicy`.
use viskium.Prelude.{ℕ, ◌+◌, ◌-◌, ◌*◌, ◌^◌, ◌≤◌, min, some, ltb}
use viskium.Core.Value.{Value, natural, Result, ok, ◌>>=◌, ◌>>◌, refuse_if, require_integer}

abbrev pub max_capture_frame_bytes : ℕ
max_capture_frame_bytes = 33_554_432

abbrev pub max_capture_timeout_ns : ℕ
max_capture_timeout_ns = 60_000_000_000

abbrev pub max_capture_cooldown_ns : ℕ
max_capture_cooldown_ns = 300_000_000_000

abbrev pub max_reopen_limit : ℕ
max_reopen_limit = 16

abbrev pub max_warmup_frames : ℕ
max_warmup_frames = 300

pub record CameraPolicy : Type 0 where
  pub max_frame_bytes : ℕ
  pub open_timeout_ns : ℕ
  pub read_timeout_ns : ℕ
  pub stale_after_ns : ℕ
  pub shutdown_timeout_ns : ℕ
  pub initial_cooldown_ns : ℕ
  pub maximum_cooldown_ns : ℕ
  pub minimum_reopen_interval_ns : ℕ
  pub stable_reset_after_ns : ℕ
  pub max_reopen_attempts : ℕ
  pub warmup_frames : ℕ

-- The arguments of the constructor, before `__post_init__` has looked at them.
pub record PolicyArguments : Type 0 where
  pub max_frame_bytes : Value
  pub open_timeout_ns : Value
  pub read_timeout_ns : Value
  pub stale_after_ns : Value
  pub shutdown_timeout_ns : Value
  pub initial_cooldown_ns : Value
  pub maximum_cooldown_ns : Value
  pub minimum_reopen_interval_ns : Value
  pub stable_reset_after_ns : Value
  pub max_reopen_attempts : Value
  pub warmup_frames : Value

abbrev timeout : Value → Result ℕ
timeout = require_integer 1 (some max_capture_timeout_ns)

abbrev cooldown : Value → Result ℕ
cooldown = require_integer 1 (some max_capture_cooldown_ns)

-- The comparisons between fields.
unfoldable pub check_policy : CameraPolicy → Result CameraPolicy
check_policy p = do
  refuse_if (ltb p.stale_after_ns p.read_timeout_ns)
  refuse_if (ltb p.shutdown_timeout_ns p.read_timeout_ns)
  refuse_if (ltb p.shutdown_timeout_ns p.open_timeout_ns)
  refuse_if (ltb p.maximum_cooldown_ns p.initial_cooldown_ns)
  refuse_if (ltb p.maximum_cooldown_ns p.minimum_reopen_interval_ns)
  ok p

-- `CameraPolicy(...)`
unfoldable pub make_policy : PolicyArguments → Result CameraPolicy
make_policy a = do
  frame_bytes ← require_integer 1 (some max_capture_frame_bytes) a.max_frame_bytes
  open_timeout ← timeout a.open_timeout_ns
  read_timeout ← timeout a.read_timeout_ns
  stale_after ← timeout a.stale_after_ns
  shutdown_timeout ← timeout a.shutdown_timeout_ns
  initial_cooldown ← cooldown a.initial_cooldown_ns
  maximum_cooldown ← cooldown a.maximum_cooldown_ns
  reopen_interval ← cooldown a.minimum_reopen_interval_ns
  stable_reset ← cooldown a.stable_reset_after_ns
  attempts ← require_integer 0 (some max_reopen_limit) a.max_reopen_attempts
  warmup ← require_integer 0 (some max_warmup_frames) a.warmup_frames
  check_policy (record {
    max_frame_bytes = frame_bytes;
    open_timeout_ns = open_timeout;
    read_timeout_ns = read_timeout;
    stale_after_ns = stale_after;
    shutdown_timeout_ns = shutdown_timeout;
    initial_cooldown_ns = initial_cooldown;
    maximum_cooldown_ns = maximum_cooldown;
    minimum_reopen_interval_ns = reopen_interval;
    stable_reset_after_ns = stable_reset;
    max_reopen_attempts = attempts;
    warmup_frames = warmup;
  })

-- `CameraPolicy.cooldown_ns`, for a count of failed attempts that is an integer.
unfoldable pub cooldown_ns : CameraPolicy → ℕ → Result ℕ
cooldown_ns p failed_attempts = do
  n ← require_integer 1 (some (max_reopen_limit + 1)) (natural failed_attempts)
  ok (min (p.initial_cooldown_ns * 2 ^ min (n - 1) max_reopen_limit) p.maximum_cooldown_ns)

-- `default_camera_policy`
abbrev pub default_camera_policy : CameraPolicy
default_camera_policy = record {
  max_frame_bytes = 1_048_576;
  open_timeout_ns = 5_000_000_000;
  read_timeout_ns = 250_000_000;
  stale_after_ns = 2_000_000_000;
  shutdown_timeout_ns = 5_000_000_000;
  initial_cooldown_ns = 250_000_000;
  maximum_cooldown_ns = 30_000_000_000;
  minimum_reopen_interval_ns = 1_000_000_000;
  stable_reset_after_ns = 30_000_000_000;
  max_reopen_attempts = 5;
  warmup_frames = 3;
}

-- What `__post_init__` promises of a policy that it lets through.
pub record IsValid (p : CameraPolicy) : Type 0 where
  pub frame_low : 1 ≤ p.max_frame_bytes
  pub frame_high : p.max_frame_bytes ≤ max_capture_frame_bytes
  pub open_low : 1 ≤ p.open_timeout_ns
  pub open_high : p.open_timeout_ns ≤ max_capture_timeout_ns
  pub read_low : 1 ≤ p.read_timeout_ns
  pub stale_high : p.stale_after_ns ≤ max_capture_timeout_ns
  pub shutdown_high : p.shutdown_timeout_ns ≤ max_capture_timeout_ns
  pub initial_low : 1 ≤ p.initial_cooldown_ns
  pub maximum_high : p.maximum_cooldown_ns ≤ max_capture_cooldown_ns
  pub interval_low : 1 ≤ p.minimum_reopen_interval_ns
  pub stable_low : 1 ≤ p.stable_reset_after_ns
  pub stable_high : p.stable_reset_after_ns ≤ max_capture_cooldown_ns
  pub attempts_high : p.max_reopen_attempts ≤ max_reopen_limit
  pub warmup_high : p.warmup_frames ≤ max_warmup_frames
  pub stale_after_read : p.read_timeout_ns ≤ p.stale_after_ns
  pub shutdown_after_read : p.read_timeout_ns ≤ p.shutdown_timeout_ns
  pub shutdown_after_open : p.open_timeout_ns ≤ p.shutdown_timeout_ns
  pub initial_below_maximum : p.initial_cooldown_ns ≤ p.maximum_cooldown_ns
  pub interval_below_maximum : p.minimum_reopen_interval_ns ≤ p.maximum_cooldown_ns

abbrev pub arguments : CameraPolicy → PolicyArguments
arguments p = record {
  max_frame_bytes = natural p.max_frame_bytes;
  open_timeout_ns = natural p.open_timeout_ns;
  read_timeout_ns = natural p.read_timeout_ns;
  stale_after_ns = natural p.stale_after_ns;
  shutdown_timeout_ns = natural p.shutdown_timeout_ns;
  initial_cooldown_ns = natural p.initial_cooldown_ns;
  maximum_cooldown_ns = natural p.maximum_cooldown_ns;
  minimum_reopen_interval_ns = natural p.minimum_reopen_interval_ns;
  stable_reset_after_ns = natural p.stable_reset_after_ns;
  max_reopen_attempts = natural p.max_reopen_attempts;
  warmup_frames = natural p.warmup_frames;
}
