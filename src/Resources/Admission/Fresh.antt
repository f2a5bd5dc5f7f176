-- ===== src/Resources/Admission/Fresh.antt =====
-- resources/admission.py: how old a snapshot may be that decides a call, and what the gate counts.
use viskium.Prelude.{
  ℕ, ◌+◌, ◌≤◌, ◌<◌, Option, none, some, Bool, true, false, if◌then◌else◌, ◌≡◌, refl, ◌⊎◌, inl, inr,
  arith,
}
use viskium.Core.Value.{natural, Result, ok, raise}
use viskium.Resources.Budget.{ResourceSnapshot, BudgetDecision}
use viskium.Resources.Admission.{
  SampleReply, Gate, fresh, take_sample, use_cache, snapshot, decide, with_queue, Call,
  is_supported, require_stage, checked, answer, evaluate,
}

-- The cache holds this snapshot, taken now or less than the interval ago.
pub record Recent (g : Gate) (s : ResourceSnapshot) (now : ℕ) : Type 0 where
  pub at : ℕ
  pub cached : g.cached ≡ some (s, at)
  pub not_later : at ≤ now
  pub young : (at ≡ now) ⊎ (now < at + g.cache_interval_ns)

sampled-Recent :
    (g : Gate) (now : ℕ) (reply : SampleReply)
    → let (g', s) = take_sample g now reply in Recent g' s now
unfolding take_sample
sampled-Recent g now reply = record {
  at = now;
  cached = refl;
  not_later = omega arith;
  young = inl refl;
}

tested-Recent :
    (g : Gate) (now : ℕ) (reply : SampleReply) (s : ResourceSnapshot) (at : ℕ) (test : Bool)
    → g.cached ≡ some (s, at)
    → (test ≡ true → (at ≤ now) × (now < at + g.cache_interval_ns))
    → let (g', s') = use_cache g now reply (if test then some s else none) in Recent g' s' now
unfolding use_cache
tested-Recent g now reply s at true e h = record {
  at = at;
  cached = e;
  not_later = (h refl).0;
  young = inr (h refl).1;
}
tested-Recent g now reply s at false e h = sampled-Recent g now reply

use_cache-Recent :
    (g : Gate) (now : ℕ) (reply : SampleReply) (held : Option (ResourceSnapshot × ℕ))
    → g.cached ≡ held
    → let (g', s) = use_cache g now reply (fresh g.cache_interval_ns now held) in Recent g' s now
unfolding fresh use_cache
use_cache-Recent g now reply none e = sampled-Recent g now reply
use_cache-Recent g now reply (some (s, at)) e =
    tested-Recent g now reply s at _ e (λ h. (ground arith, ground arith))

snapshot-Recent :
    (g : Gate) (now : ℕ) (reply : SampleReply)
    → let (g', s) = snapshot g now reply in Recent g' s now
unfolding snapshot
snapshot-Recent g now reply = use_cache-Recent g now reply g.cached refl

-- What `evaluate` answers from: the call's own integers, and the snapshot with the queue of the call.
pub record Answered (c : Call) (g g' : Gate) (d : BudgetDecision) : Type 0 where
  pub estimate : ℕ
  pub bytes : ℕ
  pub count : ℕ
  pub now : ℕ
  pub used : ResourceSnapshot
  pub estimate_given : c.estimated_bytes ≡ natural estimate
  pub bytes_given : c.queue_bytes ≡ natural bytes
  pub count_given : c.queue_count ≡ natural count
  pub clock_given : c.clock ≡ natural now
  pub recent : Recent g' used now
  pub decided : decide g.policy c.stage (with_queue used bytes count) estimate ≡ ok d

given_integers :
    (c : Call) (estimate bytes count now : ℕ)
    → checked c ≡ ok (estimate, bytes, count, now)
    → (c.estimated_bytes ≡ natural estimate)
      × (c.queue_bytes ≡ natural bytes)
      × (c.queue_count ≡ natural count)
      × (c.clock ≡ natural now)
unfolding checked require_stage is_supported
given_integers c estimate bytes count now h =
    (ground arith, ground arith, ground arith, ground arith)

answer-Answered :
    (c : Call) (g : Gate) (r : Result (ℕ × ℕ × ℕ × ℕ)) (d : BudgetDecision)
    → checked c ≡ r
    → (answer g c r).1 ≡ ok d
    → Answered c g (answer g c r).0 d
unfolding answer
answer-Answered c g (raise e) d h k = absurd (ground arith)
answer-Answered c g (ok (estimate, bytes, count, now)) d h k = record {
  estimate = estimate;
  bytes = bytes;
  count = count;
  now = now;
  used = (snapshot g now c.reply).1;
  estimate_given = (given_integers c estimate bytes count now h).0;
  bytes_given = (given_integers c estimate bytes count now h).1;
  count_given = (given_integers c estimate bytes count now h).2;
  clock_given = (given_integers c estimate bytes count now h).3;
  recent = snapshot-Recent g now c.reply;
  decided = k;
}

-- A decision comes from the integers that the call gave, with its own queue, and from a snapshot
-- that the gate keeps: it was taken at the time that the clock gives, or before it and less than the
-- cache interval ago.
pub evaluate_is_recent :
    (c : Call) (g : Gate) (d : BudgetDecision)
    → (evaluate c g).1 ≡ ok d
    → Answered c g (evaluate c g).0 d
unfolding evaluate
evaluate_is_recent c g d h = answer-Answered c g (checked c) d refl h
