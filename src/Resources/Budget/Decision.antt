-- ===== src/Resources/Budget/Decision.antt =====
-- resources/budget.py: what a decision allows, and why.
use viskium.Prelude.{
  ℕ, ◌+◌, ◌≤◌, ◌<◌, Option, none, some, Bool, true, not, ◌&&◌, ltb, length, ◌≡◌, ◌↔◌, arith,
}
use viskium.Core.Value.{natural, ok}
use viskium.Resources.Budget.{
  max_int64, ResourceSnapshot, BudgetPolicy, BudgetDecision, is_normal, make_decision,
  raised_to_constrained, check_memory, check_rss, check_queue, check_disk, decide, evaluate,
}

-- What the decision is about, as plain inequalities.
abbrev pub AtLeast : ℕ → Option ℕ → Type 0
AtLeast n none = ⊥
AtLeast n (some m) = n ≤ m

abbrev pub AtMost : ℕ → ℕ → Option ℕ → Type 0
AtMost extra limit none = ⊥
AtMost extra limit (some m) = m + extra ≤ limit

abbrev pub Roomy : BudgetPolicy → ResourceSnapshot → ℕ → Type 0
Roomy p s work =
    AtLeast (p.memory_reserve_bytes + work) s.available_memory_bytes
    × AtMost work p.max_process_rss_bytes s.process_rss_bytes
    × (s.queue_bytes < p.max_queue_bytes)
    × (s.queue_count < p.max_queue_count)

-- There is room for the work unless the reserve of memory itself is already in use.
abbrev pub Capturable : BudgetPolicy → Option ℕ → Type 0
Capturable p none = Unit {0}
Capturable p (some m) = p.memory_reserve_bytes ≤ m

abbrev all_allowed : BudgetDecision → Bool
all_allowed d = d.allow_capture && d.allow_processing && d.allow_persistence

pub record Explains (p : BudgetPolicy) (s : ResourceSnapshot) (work write : ℕ) (d : BudgetDecision)
    : Type 0 where
  pub processing : (d.allow_processing ≡ true) ↔ Roomy p s work
  pub persistence :
      (d.allow_persistence ≡ true) ↔ AtLeast (p.disk_reserve_bytes + write) s.disk_free_bytes
  pub capture : (d.allow_capture ≡ true) ↔ Capturable p s.available_memory_bytes
  pub normal : is_normal d.severity ≡ all_allowed d
  pub explained : ltb 0 (length d.reasons) ≡ not (all_allowed d)
  pub few : length d.reasons ≤ 4

-- A snapshot, by its fields.
abbrev snapshot : ℕ → Option ℕ → Option ℕ → Option ℕ → ℕ → ℕ → ResourceSnapshot
snapshot t rss memory disk bytes count = record {
  monotonic_ns = t;
  process_rss_bytes = rss;
  available_memory_bytes = memory;
  disk_free_bytes = disk;
  queue_bytes = bytes;
  queue_count = count;
}

decide-Explains :
    (p : BudgetPolicy) (t : ℕ) (rss memory disk : Option ℕ) (bytes count work write : ℕ)
    → let s = snapshot t rss memory disk bytes count in
      Explains p s work write (decide p s work write)
unfolding decide check_memory check_rss check_queue check_disk raised_to_constrained make_decision
decide-Explains p t none none none bytes count work write = record {
  processing = (λ h. ground arith, λ h. ground arith);
  persistence = (λ h. ground arith, λ h. ground arith);
  capture = (λ h. ground arith, λ h. ground arith);
  normal = ground arith;
  explained = ground arith;
  few = ground arith;
}
decide-Explains p t none none (some d) bytes count work write = record {
  processing = (λ h. ground arith, λ h. ground arith);
  persistence = (λ h. ground arith, λ h. ground arith);
  capture = (λ h. ground arith, λ h. ground arith);
  normal = ground arith;
  explained = ground arith;
  few = ground arith;
}
decide-Explains p t none (some m) none bytes count work write = record {
  processing = (λ h. ground arith, λ h. ground arith);
  persistence = (λ h. ground arith, λ h. ground arith);
  capture = (λ h. ground arith, λ h. ground arith);
  normal = ground arith;
  explained = ground arith;
  few = ground arith;
}
decide-Explains p t none (some m) (some d) bytes count work write = record {
  processing = (λ h. ground arith, λ h. ground arith);
  persistence = (λ h. ground arith, λ h. ground arith);
  capture = (λ h. ground arith, λ h. ground arith);
  normal = ground arith;
  explained = ground arith;
  few = ground arith;
}
decide-Explains p t (some r) none none bytes count work write = record {
  processing = (λ h. ground arith, λ h. ground arith);
  persistence = (λ h. ground arith, λ h. ground arith);
  capture = (λ h. ground arith, λ h. ground arith);
  normal = ground arith;
  explained = ground arith;
  few = ground arith;
}
decide-Explains p t (some r) none (some d) bytes count work write = record {
  processing = (λ h. ground arith, λ h. ground arith);
  persistence = (λ h. ground arith, λ h. ground arith);
  capture = (λ h. ground arith, λ h. ground arith);
  normal = ground arith;
  explained = ground arith;
  few = ground arith;
}
decide-Explains p t (some r) (some m) none bytes count work write = record {
  processing = (λ h. ground arith, λ h. ground arith);
  persistence = (λ h. ground arith, λ h. ground arith);
  capture = (λ h. ground arith, λ h. ground arith);
  normal = ground arith;
  explained = ground arith;
  few = ground arith;
}
decide-Explains p t (some r) (some m) (some d) bytes count work write = record {
  processing = (λ h. ground arith, λ h. ground arith);
  persistence = (λ h. ground arith, λ h. ground arith);
  capture = (λ h. ground arith, λ h. ground arith);
  normal = ground arith;
  explained = ground arith;
  few = ground arith;
}

decision_passes :
    (d : BudgetDecision)
    → is_normal d.severity ≡ all_allowed d
    → ltb 0 (length d.reasons) ≡ not (all_allowed d)
    → length d.reasons ≤ 4
    → make_decision d ≡ ok d
unfolding make_decision
decision_passes d n e f = ground arith

-- `evaluate` gives a decision for every pressure and for all estimates that fit in a signed 64-bit
-- integer; its own checks refuse none. Processing is allowed exactly when the memory and the
-- size of the process are known and leave room for the work, and the queue is below both of its
-- limits; persistence exactly when the free space on the disk is known and leaves its reserve after
-- the write; capture unless the memory is known to be below its reserve. The
-- severity is normal exactly when all three are allowed, and there is a reason
-- exactly when one is not.
pub evaluate-Explains :
    (p : BudgetPolicy) (s : ResourceSnapshot) (work write : ℕ)
    → work ≤ max_int64
    → write ≤ max_int64
    → (d : BudgetDecision) × (evaluate p s (natural work) (natural write) ≡ ok d)
      × Explains p s work write d
unfolding evaluate
evaluate-Explains p s work write low high =
    let e =
      decide-Explains p s.monotonic_ns s.process_rss_bytes s.available_memory_bytes
        s.disk_free_bytes s.queue_bytes s.queue_count work write in
    let passes = decision_passes (decide p s work write) e.normal e.explained e.few in
    (decide p s work write, ground arith, e)
