-- ===== src/Resources/Admission/Tests.antt =====
-- resources/admission.py: a gate at concrete calls.
use viskium.Prelude.{ℕ, ◌+◌, ◌≡◌, refl, ◌⊎◌, none, some, true, false, List, [], ◌∷◌, arith}
use viskium.Core.Value.{natural, Error, ok, raise}
use viskium.Resources.Budget.{
  BudgetPolicy, ResourceSnapshot, BudgetDecision, BudgetSeverity, BudgetReason, make_decision,
}
use viskium.Resources.Budget
use viskium.Resources.Admission.{
  Stage, SampleReply, Gate, Call, make_gate, increment, snapshot, evaluate,
}
use viskium.Resources.Admission.Fresh.{Answered, evaluate_is_recent}
use viskium.Resources.Admission.Counts.{evaluate_counts, results, AllDeny, sampling_fails_closed}

abbrev policy : BudgetPolicy
policy = record {
  memory_reserve_bytes = 100;
  disk_reserve_bytes = 50;
  max_process_rss_bytes = 400;
  max_queue_bytes = 10;
  max_queue_count = 4;
}

abbrev roomy : ResourceSnapshot
roomy = record {
  monotonic_ns = 7;
  process_rss_bytes = some 30;
  available_memory_bytes = some 500;
  disk_free_bytes = some 900;
  queue_bytes = 0;
  queue_count = 0;
}

abbrev empty_gate : Gate
empty_gate = record {
  policy = policy;
  cache_interval_ns = 250;
  cached = none;
  samples = 0;
  cache_hits = 0;
  failures = 0;
}

gate_made : make_gate policy (natural 250) ≡ ok empty_gate
unfolding make_gate
gate_made = refl

-- A gate that took a sample at 1000.
abbrev warm_gate : Gate
warm_gate = record empty_gate { cached = some (roomy, 1_000); samples = 1 }

abbrev call : ℕ → SampleReply → Call
call now reply = record {
  stage = Stage.processing;
  estimated_bytes = natural 60;
  queue_bytes = natural 1;
  queue_count = natural 1;
  clock = natural now;
  reply = reply;
}

abbrev everything : BudgetDecision
everything = record {
  allow_capture = true;
  allow_processing = true;
  allow_persistence = true;
  severity = BudgetSeverity.normal;
  reasons = [];
}

cached_answer : (evaluate (call 1_100 SampleReply.unusable) warm_gate).1 ≡ ok everything
unfolding evaluate snapshot increment Budget.evaluate make_decision
cached_answer = refl

evaluate_is_recent_example :
    Answered
      (call 1_100 SampleReply.unusable)
      warm_gate
      (evaluate (call 1_100 SampleReply.unusable) warm_gate).0
      everything
evaluate_is_recent_example =
    evaluate_is_recent (call 1_100 SampleReply.unusable) warm_gate everything cached_answer

evaluate_counts_example :
    let (g', a) = evaluate (call 1_300 SampleReply.unusable) warm_gate in
    ((e : Error) × (a ≡ raise e) × (g' ≡ warm_gate))
    ⊎ ((d : BudgetDecision) × (a ≡ ok d) × (g'.samples + g'.cache_hits ≡ 1 + 0 + 1))
evaluate_counts_example =
    evaluate_counts (call 1_300 SampleReply.unusable) warm_gate (omega arith) (omega arith)

abbrev nothing : BudgetDecision
nothing = record {
  allow_capture = true;
  allow_processing = false;
  allow_persistence = false;
  severity = BudgetSeverity.constrained;
  reasons =
      BudgetReason.memory_available_unknown ∷ BudgetReason.process_rss_unknown
      ∷ BudgetReason.disk_free_unknown ∷ [];
}

-- The second call uses the snapshot that the first one left in the cache.
abbrev blind_calls : List Call
blind_calls = call 9 SampleReply.unusable ∷ call 10 SampleReply.unusable ∷ []

blind_answers : results blind_calls empty_gate ≡ ok nothing ∷ ok nothing ∷ []
unfolding results evaluate snapshot increment Budget.evaluate make_decision
blind_answers = refl

blind_hit :
    (evaluate
      (call 10 SampleReply.unusable)
      (evaluate (call 9 SampleReply.unusable) empty_gate).0).0.cache_hits
    ≡ 1
unfolding evaluate snapshot increment
blind_hit = refl

sampling_fails_closed_example : AllDeny (results blind_calls empty_gate)
sampling_fails_closed_example = sampling_fails_closed blind_calls empty_gate tt (refl, (refl, tt))
