-- ===== src/Capture/Contracts/Checks.antt =====
-- capture/contracts.py: what the checks of `CameraPolicy` let through, and its retry delay.
use native.Mathlib.Nat.{pow-suc}
use native.Mathlib.Numerals.{add-one}
use viskium.Prelude.{
  ℕ, zero, suc, ◌+◌, ◌-◌, ◌*◌, ◌^◌, ◌≤◌, min, ◌≡◌, refl, sym, ap, ◌∙◌, some, arith,
}
use viskium.Core.Value.{natural, ok, require_integer}
use viskium.Capture.Contracts.Policy.{
  CameraPolicy, PolicyArguments, make_policy, check_policy, cooldown_ns, IsValid, arguments,
  max_reopen_limit, max_capture_frame_bytes, max_capture_timeout_ns, max_capture_cooldown_ns,
  max_warmup_frames,
}

-- Whatever the constructor is given, a policy that it returns has every field in its range and
-- every pair of fields in its order.
pub make_policy-IsValid :
    (a : PolicyArguments) {p : CameraPolicy} → make_policy a ≡ ok p → IsValid p
unfolding make_policy check_policy
make_policy-IsValid a h = ground arith

in_range :
    (minimum maximum n : ℕ)
    → minimum ≤ n
    → n ≤ maximum
    → require_integer minimum (some maximum) (natural n) ≡ ok n
in_range minimum maximum n p q = ground arith

check_policy-IsValid : (p : CameraPolicy) → IsValid p → check_policy p ≡ ok p
unfolding check_policy
check_policy-IsValid p v = ground arith

-- The constructor accepts each such policy as it is.
pub make_policy-arguments : (p : CameraPolicy) → IsValid p → make_policy (arguments p) ≡ ok p
unfolding make_policy
make_policy-arguments p v =
    rw
      (
        in_range 1 max_capture_frame_bytes p.max_frame_bytes v.frame_low v.frame_high,
        in_range 1 max_capture_timeout_ns p.open_timeout_ns v.open_low v.open_high,
        in_range 1 max_capture_timeout_ns p.read_timeout_ns v.read_low (omega arith),
        in_range 1 max_capture_timeout_ns p.stale_after_ns (omega arith) v.stale_high,
        in_range 1 max_capture_timeout_ns p.shutdown_timeout_ns (omega arith) v.shutdown_high,
        in_range 1 max_capture_cooldown_ns p.initial_cooldown_ns v.initial_low (omega arith),
        in_range 1 max_capture_cooldown_ns p.maximum_cooldown_ns (omega arith) v.maximum_high,
        in_range 1 max_capture_cooldown_ns p.minimum_reopen_interval_ns v.interval_low
            (omega arith),
        in_range 1 max_capture_cooldown_ns p.stable_reset_after_ns v.stable_low v.stable_high,
        in_range 0 max_reopen_limit p.max_reopen_attempts (omega arith) v.attempts_high,
        in_range 0 max_warmup_frames p.warmup_frames (omega arith) v.warmup_high,
      )
      (check_policy-IsValid p v)

pow-pos : (n : ℕ) → 1 ≤ 2 ^ n
pow-pos zero = omega arith
pow-pos (suc n) = rw pow-suc (omega (arith, pow-pos n))

-- Of a valid policy, after any count of failed attempts from one to one more than its own limit, the
-- delay is computed without an error, and lies between the initial and the maximum cooldown.
pub cooldown_bounds :
    (p : CameraPolicy) (n : ℕ)
    → IsValid p
    → 1 ≤ n
    → n ≤ p.max_reopen_attempts + 1
    → (d : ℕ) × (cooldown_ns p n ≡ ok d) × (p.initial_cooldown_ns ≤ d) × (d ≤ p.maximum_cooldown_ns)
unfolding cooldown_ns
cooldown_bounds p n v low high =
    let e : ℕ = min (n - 1) max_reopen_limit in
    (
      min (p.initial_cooldown_ns * 2 ^ e) p.maximum_cooldown_ns,
      ground arith,
      grind (arith, pow-pos e),
      omega arith,
    )

cooldown_at :
    (p : CameraPolicy) (n : ℕ)
    → n ≤ max_reopen_limit
    → cooldown_ns p (suc n) ≡ ok (min (p.initial_cooldown_ns * 2 ^ n) p.maximum_cooldown_ns)
unfolding cooldown_ns
cooldown_at p n high =
    let e : min (suc n - 1) max_reopen_limit ≡ n = omega arith in
    rw (in_range 1 (max_reopen_limit + 1) (suc n) (omega arith) (omega arith)) (rw e refl)

ok-injective : {a b : ℕ} → ok a ≡ ok b → a ≡ b
ok-injective e = cc

-- From one failed attempt to the next the delay doubles, up to the maximum cooldown.
pub cooldown_doubles :
    (p : CameraPolicy) (n d : ℕ)
    → 1 ≤ n
    → n ≤ max_reopen_limit
    → cooldown_ns p n ≡ ok d
    → cooldown_ns p (n + 1) ≡ ok (min (2 * d) p.maximum_cooldown_ns)
cooldown_doubles p zero d low high e = absurd (omega arith)
cooldown_doubles p (suc n) d low high e = rw add-one (
    cooldown_at p (suc n) high
    ∙ ap ok (
        omega (
          arith,
          ap (λ t. p.initial_cooldown_ns * t) (pow-suc 2 n),
          ok-injective (sym (cooldown_at p n (omega arith)) ∙ e),
        )))
