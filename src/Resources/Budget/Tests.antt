-- ===== src/Resources/Budget/Tests.antt =====
-- resources/budget.py: decisions at concrete pressures.
use viskium.Prelude.{◌≡◌, refl, none, some, arith}
use viskium.Core.Value.{natural, ok}
use viskium.Resources.Budget.{BudgetPolicy, ResourceSnapshot, BudgetDecision, make_policy, evaluate}
use viskium.Resources.Budget.Decision.{Explains, evaluate-Explains}

abbrev policy : BudgetPolicy
policy = record {
  memory_reserve_bytes = 100;
  disk_reserve_bytes = 50;
  max_process_rss_bytes = 400;
  max_queue_bytes = 10;
  max_queue_count = 4;
}

policy_made :
    make_policy (natural 100) (natural 50) (natural 400) (natural 10) (natural 4) ≡ ok policy
unfolding make_policy
policy_made = refl

-- Memory is short for the work, and the disk is not measured.
abbrev pressed : ResourceSnapshot
pressed = record {
  monotonic_ns = 1;
  process_rss_bytes = some 30;
  available_memory_bytes = some 120;
  disk_free_bytes = none;
  queue_bytes = 0;
  queue_count = 0;
}

evaluate-Explains_example :
    (d : BudgetDecision) × (evaluate policy pressed (natural 30) (natural 0) ≡ ok d)
    × Explains policy pressed 30 0 d
evaluate-Explains_example = evaluate-Explains policy pressed 30 0 (omega arith) (omega arith)
