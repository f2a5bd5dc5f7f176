-- ===== src/Capture/Controller/Counters.antt =====
-- capture/controller.py: the counters of a controller, which stop at the largest 64-bit integer.
use Prim.Native.Nat.{min}
use viskium.Prelude.{ℕ, ◌+◌, ◌-◌, ◌^◌}

abbrev pub max_int64 : ℕ
max_int64 = 2 ^ 63 - 1

pub record Counters : Type 0 where
  pub backend_instances : ℕ
  pub open_attempts : ℕ
  pub open_successes : ℕ
  pub open_failures : ℕ
  pub unsafe_backends : ℕ
  pub read_attempts : ℕ
  pub frames_read : ℕ
  pub warmup_frames_discarded : ℕ
  pub frames_offered : ℕ
  pub frames_replaced : ℕ
  pub frames_rejected_closed : ℕ
  pub read_timeouts : ℕ
  pub disconnects : ℕ
  pub recoverable_errors : ℕ
  pub fatal_errors : ℕ
  pub backend_failures : ℕ
  pub contract_violations : ℕ
  pub retries_scheduled : ℕ
  pub stop_timeouts : ℕ

abbrev pub no_counts : Counters
no_counts = record {
  backend_instances = 0;
  open_attempts = 0;
  open_successes = 0;
  open_failures = 0;
  unsafe_backends = 0;
  read_attempts = 0;
  frames_read = 0;
  warmup_frames_discarded = 0;
  frames_offered = 0;
  frames_replaced = 0;
  frames_rejected_closed = 0;
  read_timeouts = 0;
  disconnects = 0;
  recoverable_errors = 0;
  fatal_errors = 0;
  backend_failures = 0;
  contract_violations = 0;
  retries_scheduled = 0;
  stop_timeouts = 0;
}

-- The names in `_COUNTER_NAMES`.
pub data Counter : Type 0 where
  backend_instances open_attempts open_successes open_failures unsafe_backends : Counter
  read_attempts frames_read warmup_frames_discarded frames_offered frames_replaced : Counter
  frames_rejected_closed read_timeouts disconnects recoverable_errors fatal_errors : Counter
  backend_failures contract_violations retries_scheduled stop_timeouts : Counter

bump : ℕ → ℕ
bump n = min (n + 1) max_int64

unfoldable pub increment_counter : Counter → Counters → Counters
unfolding bump
increment_counter backend_instances c = record c { backend_instances = bump c.backend_instances }
increment_counter open_attempts c = record c { open_attempts = bump c.open_attempts }
increment_counter open_successes c = record c { open_successes = bump c.open_successes }
increment_counter open_failures c = record c { open_failures = bump c.open_failures }
increment_counter unsafe_backends c = record c { unsafe_backends = bump c.unsafe_backends }
increment_counter read_attempts c = record c { read_attempts = bump c.read_attempts }
increment_counter frames_read c = record c { frames_read = bump c.frames_read }
increment_counter warmup_frames_discarded c = record c {
  warmup_frames_discarded = bump c.warmup_frames_discarded;
}
increment_counter frames_offered c = record c { frames_offered = bump c.frames_offered }
increment_counter frames_replaced c = record c { frames_replaced = bump c.frames_replaced }
increment_counter frames_rejected_closed c = record c {
  frames_rejected_closed = bump c.frames_rejected_closed;
}
increment_counter read_timeouts c = record c { read_timeouts = bump c.read_timeouts }
increment_counter disconnects c = record c { disconnects = bump c.disconnects }
increment_counter recoverable_errors c = record c { recoverable_errors = bump c.recoverable_errors }
increment_counter fatal_errors c = record c { fatal_errors = bump c.fatal_errors }
increment_counter backend_failures c = record c { backend_failures = bump c.backend_failures }
increment_counter contract_violations c = record c {
  contract_violations = bump c.contract_violations;
}
increment_counter retries_scheduled c = record c { retries_scheduled = bump c.retries_scheduled }
increment_counter stop_timeouts c = record c { stop_timeouts = bump c.stop_timeouts }
