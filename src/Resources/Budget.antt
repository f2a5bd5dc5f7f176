-- ===== src/Resources/Budget.antt =====
-- resources/budget.py: `BudgetPolicy.evaluate`.
pub mod Decision
mod Tests
use viskium.Prelude.{
  ℕ, ◌+◌, ◌-◌, ◌^◌, Option, none, some, Bool, true, false, not, ◌&&◌, ◌||◌, List, [], ◌∷◌, ◌++◌,
  leb, ltb, length, if◌then◌else◌,
}
use viskium.Core.Value.{
  Value, Result, ok, raise, value_error, ◌>>=◌, ◌>>◌, refuse_if, require_integer,
}

abbrev pub max_int64 : ℕ
max_int64 = 2 ^ 63 - 1

pub data BudgetSeverity : Type 0 where
  normal constrained critical : BudgetSeverity

-- The reason codes that `evaluate` gives.
pub data BudgetReason : Type 0 where
  memory_available_unknown memory_reserve process_rss_unknown process_rss_limit : BudgetReason
  queue_limit disk_free_unknown disk_reserve : BudgetReason

-- The fields, which `__post_init__` has checked to be integers that are not negative.
pub record ResourceSnapshot : Type 0 where
  pub monotonic_ns : ℕ
  pub process_rss_bytes : Option ℕ
  pub available_memory_bytes : Option ℕ
  pub disk_free_bytes : Option ℕ
  pub queue_bytes : ℕ
  pub queue_count : ℕ

pub record BudgetPolicy : Type 0 where
  pub memory_reserve_bytes : ℕ
  pub disk_reserve_bytes : ℕ
  pub max_process_rss_bytes : ℕ
  pub max_queue_bytes : ℕ
  pub max_queue_count : ℕ

pub record BudgetDecision : Type 0 where
  pub allow_capture : Bool
  pub allow_processing : Bool
  pub allow_persistence : Bool
  pub severity : BudgetSeverity
  pub reasons : List BudgetReason

abbrev pub non_negative : Value → Result ℕ
non_negative = require_integer 0 (some max_int64)

abbrev positive : Value → Result ℕ
positive = require_integer 1 (some max_int64)

-- `BudgetPolicy(...)`
unfoldable pub make_policy : Value → Value → Value → Value → Value → Result BudgetPolicy
make_policy memory disk rss bytes count = do
  reserve ← positive memory
  free ← positive disk
  max_rss ← positive rss
  max_bytes ← positive bytes
  max_count ← positive count
  ok (record {
    memory_reserve_bytes = reserve;
    disk_reserve_bytes = free;
    max_process_rss_bytes = max_rss;
    max_queue_bytes = max_bytes;
    max_queue_count = max_count;
  })

abbrev pub is_normal : BudgetSeverity → Bool
is_normal BudgetSeverity.normal = true
is_normal _ = false

-- `BudgetDecision(...)`, for reasons that are strings.
unfoldable pub make_decision : BudgetDecision → Result BudgetDecision
make_decision d = do
  refuse_if (ltb 8 (length d.reasons))
  refuse_if (is_normal d.severity && ltb 0 (length d.reasons))
  ok d

-- `"constrained" if severity == "normal" else severity`
raised_to_constrained : BudgetSeverity → BudgetSeverity
raised_to_constrained BudgetSeverity.normal = BudgetSeverity.constrained
raised_to_constrained s = s

-- `evaluate` builds the decision from these variables, one test after the other.
abbrev unrestricted : BudgetDecision
unrestricted = record {
  allow_capture = true;
  allow_processing = true;
  allow_persistence = true;
  severity = BudgetSeverity.normal;
  reasons = [];
}

check_memory : BudgetPolicy → ℕ → Option ℕ → BudgetDecision → BudgetDecision
check_memory p work none d = record d {
  reasons = d.reasons ++ (memory_available_unknown ∷ []);
  allow_processing = false;
  severity = BudgetSeverity.constrained;
}
check_memory p work (some available) d =
    if ltb available (p.memory_reserve_bytes + work)
    then record d {
      reasons = d.reasons ++ (memory_reserve ∷ []);
      allow_processing = false;
      allow_capture = if ltb available p.memory_reserve_bytes then false else d.allow_capture;
      severity =
          if ltb available p.memory_reserve_bytes
          then BudgetSeverity.critical
          else BudgetSeverity.constrained;
    }
    else d

check_rss : BudgetPolicy → ℕ → Option ℕ → BudgetDecision → BudgetDecision
unfolding raised_to_constrained
check_rss p work none d = record d {
  reasons = d.reasons ++ (process_rss_unknown ∷ []);
  allow_processing = false;
  severity = raised_to_constrained d.severity;
}
check_rss p work (some rss) d =
    if ltb p.max_process_rss_bytes (rss + work)
    then record d {
      reasons = d.reasons ++ (process_rss_limit ∷ []);
      allow_processing = false;
      severity = BudgetSeverity.critical;
    }
    else d

check_queue : BudgetPolicy → ℕ → ℕ → BudgetDecision → BudgetDecision
check_queue p bytes count d =
    if leb p.max_queue_bytes bytes || leb p.max_queue_count count
    then record d {
      reasons = d.reasons ++ (queue_limit ∷ []);
      allow_processing = false;
      severity = BudgetSeverity.critical;
    }
    else d

check_disk : BudgetPolicy → ℕ → Option ℕ → BudgetDecision → BudgetDecision
unfolding raised_to_constrained
check_disk p write none d = record d {
  reasons = d.reasons ++ (disk_free_unknown ∷ []);
  allow_persistence = false;
  severity = raised_to_constrained d.severity;
}
check_disk p write (some free) d =
    if ltb free (p.disk_reserve_bytes + write)
    then record d {
      reasons = d.reasons ++ (disk_reserve ∷ []);
      allow_persistence = false;
      severity = BudgetSeverity.critical;
    }
    else d

decide : BudgetPolicy → ResourceSnapshot → ℕ → ℕ → BudgetDecision
unfolding check_memory check_rss check_queue check_disk
decide p s work write = check_disk p write s.disk_free_bytes (
    check_queue p s.queue_bytes s.queue_count (
      check_rss p work s.process_rss_bytes
        (check_memory p work s.available_memory_bytes unrestricted)))

-- `BudgetPolicy.evaluate`
unfoldable pub evaluate : BudgetPolicy → ResourceSnapshot → Value → Value → Result BudgetDecision
unfolding decide make_decision
evaluate p s working write = do
  work_bytes ← non_negative working
  write_bytes ← non_negative write
  make_decision (decide p s work_bytes write_bytes)
