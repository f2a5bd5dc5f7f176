-- ===== src/Resources/Admission.antt =====
-- resources/admission.py: `ResourceAdmissionGate`, a cache of one snapshot before the budget policy.
pub mod Fresh
pub mod Counts
mod Tests
use viskium.Prelude.{
  ℕ, ◌+◌, ◌-◌, Option, none, some, Bool, true, false, ◌&&◌, leb, ltb, if◌then◌else◌,
}
use viskium.Core.Value.{Value, natural, Error, Result, ok, raise, value_error, ◌>>=◌}
use viskium.Resources.Budget.{
  max_int64, ResourceSnapshot, BudgetPolicy, BudgetDecision, non_negative,
}
use viskium.Resources.Budget

pub data Stage : Type 0 where
  processing persistence unsupported : Stage

-- What `sample` gives: `unusable` where it raises or returns no ResourceSample of a
-- ResourceSnapshot, and otherwise the snapshot and whether the sample reports errors.
pub data SampleReply : Type 0 where
  unusable : SampleReply
  sample : ResourceSnapshot → Bool → SampleReply

pub record Gate : Type 0 where
  pub policy : BudgetPolicy
  pub cache_interval_ns : ℕ
  pub cached : Option (ResourceSnapshot × ℕ)
  pub samples : ℕ
  pub cache_hits : ℕ
  pub failures : ℕ

-- `__init__`
unfoldable pub make_gate : BudgetPolicy → Value → Result Gate
make_gate p interval = do
  ns ← non_negative interval
  ok (record {
    policy = p;
    cache_interval_ns = ns;
    cached = none;
    samples = 0;
    cache_hits = 0;
    failures = 0;
  })

-- `_increment`
unfoldable pub increment : ℕ → ℕ
increment n = if ltb n max_int64 then n + 1 else n

abbrev pub unknown_snapshot : ℕ → ResourceSnapshot
unknown_snapshot now = record {
  monotonic_ns = now;
  process_rss_bytes = none;
  available_memory_bytes = none;
  disk_free_bytes = none;
  queue_bytes = 0;
  queue_count = 0;
}

-- `_cache_is_fresh`, with the snapshot where it is.
fresh : ℕ → ℕ → Option (ResourceSnapshot × ℕ) → Option ResourceSnapshot
fresh interval now none = none
fresh interval now (some (s, at)) =
    if ltb 0 interval && leb at now && ltb (now - at) interval then some s else none

sampled : ℕ → SampleReply → ResourceSnapshot
sampled now unusable = unknown_snapshot now
sampled now (sample s errors) = s

failed : SampleReply → Bool
failed unusable = true
failed (sample s errors) = errors

-- A new sample, once the cache is found to be stale.
take_sample : Gate → ℕ → SampleReply → Gate × ResourceSnapshot
unfolding sampled failed increment
take_sample g now reply = (
  record g {
    cached = some (sampled now reply, now);
    samples = increment g.samples;
    failures = if failed reply then increment g.failures else g.failures;
  },
  sampled now reply,
)

use_cache : Gate → ℕ → SampleReply → Option ResourceSnapshot → Gate × ResourceSnapshot
unfolding take_sample increment
use_cache g now reply none = take_sample g now reply
use_cache g now reply (some s) = (record g { cache_hits = increment g.cache_hits }, s)

-- `_snapshot`, for a clock that gives `now`.
unfoldable pub snapshot : Gate → ℕ → SampleReply → Gate × ResourceSnapshot
unfolding fresh use_cache
snapshot g now reply = use_cache g now reply (fresh g.cache_interval_ns now g.cached)

pub decide : BudgetPolicy → Stage → ResourceSnapshot → ℕ → Result BudgetDecision
decide p Stage.processing s estimate = Budget.evaluate p s (natural estimate) (natural 0)
decide p Stage.persistence s estimate = Budget.evaluate p s (natural 0) (natural estimate)
decide p Stage.unsupported s estimate = raise value_error

abbrev with_queue : ResourceSnapshot → ℕ → ℕ → ResourceSnapshot
with_queue s bytes count = record s { queue_bytes = bytes; queue_count = count }

-- The arguments of one call of `evaluate`, what the clock gives, and what the sampler would.
pub record Call : Type 0 where
  pub stage : Stage
  pub estimated_bytes : Value
  pub queue_bytes : Value
  pub queue_count : Value
  pub clock : Value
  pub reply : SampleReply

is_supported : Stage → Bool
is_supported Stage.unsupported = false
is_supported _ = true

require_stage : Stage → Result (Unit {0})
unfolding is_supported
require_stage s = if is_supported s then ok tt else raise value_error

-- The integers of a call, in the order in which they are checked.
checked : Call → Result (ℕ × ℕ × ℕ × ℕ)
unfolding require_stage
checked c = do
  supported ← require_stage c.stage
  estimate ← non_negative c.estimated_bytes
  bytes ← non_negative c.queue_bytes
  count ← non_negative c.queue_count
  now ← non_negative c.clock
  ok (estimate, bytes, count, now)

answer : Gate → Call → Result (ℕ × ℕ × ℕ × ℕ) → Gate × Result BudgetDecision
unfolding decide
answer g c (raise e) = (g, raise e)
answer g c (ok (estimate, bytes, count, now)) =
    let (g', s) = snapshot g now c.reply in
    (g', decide g.policy c.stage (with_queue s bytes count) estimate)

-- `evaluate`
unfoldable pub evaluate : Call → Gate → Gate × Result BudgetDecision
unfolding checked answer
evaluate c g = answer g c (checked c)
