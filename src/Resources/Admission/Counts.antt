-- ===== src/Resources/Admission/Counts.antt =====
-- resources/admission.py: what the gate counts, and what it does when it cannot sample.
use viskium.Prelude.{
  ℕ, ◌+◌, ◌≤◌, ◌<◌, Option, none, some, Bool, true, false, ◌≡◌, refl, ap, sym, ◌∙◌, ◌⊎◌, inl, inr,
  arith, if_rule, List, [], ◌∷◌, ◌&&◌, ltb, leb, ◌-◌,
}
use viskium.Core.Value.{Error, Result, ok, raise}
use viskium.Resources.Budget.{max_int64, ResourceSnapshot, BudgetPolicy, BudgetDecision}
use viskium.Resources.Budget.Decision.{Explains, evaluate-Explains}
use viskium.Resources.Admission.{
  Stage, SampleReply, unusable, Gate, increment, unknown_snapshot, fresh, sampled, take_sample,
  use_cache, snapshot, decide, with_queue, Call, is_supported, require_stage, checked, answer,
  evaluate,
}

-- A supported stage and an estimate in range give a decision.
decide_total :
    (p : BudgetPolicy) (stage : Stage) (s : ResourceSnapshot) (n : ℕ)
    → is_supported stage ≡ true
    → n ≤ max_int64
    → (d : BudgetDecision) × (decide p stage s n ≡ ok d)
unfolding decide is_supported
decide_total p Stage.processing s n h k =
    let (d, e, x) = evaluate-Explains p s n 0 k (omega arith) in (d, e)
decide_total p Stage.persistence s n h k =
    let (d, e, x) = evaluate-Explains p s 0 n (omega arith) k in (d, e)
decide_total p Stage.unsupported s n h k = absurd (ground arith)

checked_facts :
    (c : Call) (estimate bytes count now : ℕ)
    → checked c ≡ ok (estimate, bytes, count, now)
    → (is_supported c.stage ≡ true) × (estimate ≤ max_int64)
unfolding checked require_stage
checked_facts c estimate bytes count now h = (ground arith, ground arith)

counted-snapshot :
    (g : Gate) (now : ℕ) (reply : SampleReply) (held : Option ResourceSnapshot)
    → g.samples < max_int64
    → g.cache_hits < max_int64
    → let g' = (use_cache g now reply held).0 in
      g'.samples + g'.cache_hits ≡ g.samples + g.cache_hits + 1
unfolding use_cache take_sample increment
counted-snapshot g now reply none a b = ground arith
counted-snapshot g now reply (some s) a b = ground arith

answer_counts :
    (c : Call) (g : Gate) (r : Result (ℕ × ℕ × ℕ × ℕ))
    → checked c ≡ r
    → g.samples < max_int64
    → g.cache_hits < max_int64
    → let (g', a) = answer g c r in
      ((e : Error) × (a ≡ raise e) × (g' ≡ g))
      ⊎ ((d : BudgetDecision) × (a ≡ ok d)
          × (g'.samples + g'.cache_hits ≡ g.samples + g.cache_hits + 1))
unfolding answer snapshot
answer_counts c g (raise e) h a b = inl (e, refl, refl)
answer_counts c g (ok (estimate, bytes, count, now)) h a b =
    let (supported, small) = checked_facts c estimate bytes count now h in
    let s = (snapshot g now c.reply).1 in
    let (d, e) =
      decide_total g.policy c.stage (with_queue s bytes count) estimate supported small in
    inr (d, e, counted-snapshot g now c.reply _ a b)

-- A call of `evaluate` either raises and leaves the gate as it was, or gives a decision and counts
-- one sample or one cache hit more, as long as the counters are below their ceiling.
pub evaluate_counts :
    (c : Call) (g : Gate)
    → g.samples < max_int64
    → g.cache_hits < max_int64
    → let (g', a) = evaluate c g in
      ((e : Error) × (a ≡ raise e) × (g' ≡ g))
      ⊎ ((d : BudgetDecision) × (a ≡ ok d)
          × (g'.samples + g'.cache_hits ≡ g.samples + g.cache_hits + 1))
unfolding evaluate
evaluate_counts c g a b = answer_counts c g (checked c) refl a b

never_true : (b : Bool) → (b ≡ true → ⊥) → b ≡ false
never_true true h = absurd (h refl)
never_true false h = refl

unknown_explained :
    (p : BudgetPolicy) (now bytes count work write : ℕ) (d d' : BudgetDecision)
    → Explains p (with_queue (unknown_snapshot now) bytes count) work write d
    → ok d ≡ ok d'
    → (d'.allow_processing ≡ false) × (d'.allow_persistence ≡ false)
unknown_explained p now bytes count work write d d' x e =
    let same : d ≡ d' = cc in
    (
      ap (λ u. u.allow_processing) (sym same)
          ∙ never_true d.allow_processing (λ h. (x.processing.0 h).0),
      ap (λ u. u.allow_persistence) (sym same)
          ∙ never_true d.allow_persistence (λ h. x.persistence.0 h),
    )

-- No pressure is known, so that neither kind of work is admitted.
unknown_denies :
    (p : BudgetPolicy) (stage : Stage) (now bytes count n : ℕ) (d : BudgetDecision)
    → n ≤ max_int64
    → decide p stage (with_queue (unknown_snapshot now) bytes count) n ≡ ok d
    → (d.allow_processing ≡ false) × (d.allow_persistence ≡ false)
unfolding decide
unknown_denies p Stage.processing now bytes count n d k h =
    let (d', e, x) =
      evaluate-Explains p (with_queue (unknown_snapshot now) bytes count) n 0 k (omega arith) in
    unknown_explained p now bytes count n 0 d' d x (sym e ∙ h)
unknown_denies p Stage.persistence now bytes count n d k h =
    let (d', e, x) =
      evaluate-Explains p (with_queue (unknown_snapshot now) bytes count) 0 n (omega arith) k in
    unknown_explained p now bytes count 0 n d' d x (sym e ∙ h)
unknown_denies p Stage.unsupported now bytes count n d k h = absurd (ground arith)

-- A cache that holds nothing, or what a failed sample left in it.
abbrev pub Blind : Option (ResourceSnapshot × ℕ) → Type 0
Blind none = Unit {0}
Blind (some (s, taken_at)) = s ≡ unknown_snapshot taken_at

-- A sampler that fails leaves the cache blind, and the call with a snapshot in which nothing is known.
record IsBlind (x : Gate × ResourceSnapshot) : Type 0 where
  cache : Blind x.0.cached
  used : (at : ℕ) × (x.1 ≡ unknown_snapshot at)

use_cache-IsBlind :
    (g : Gate) (now : ℕ) (cache : Option (ResourceSnapshot × ℕ))
    → g.cached ≡ cache
    → Blind cache
    → IsBlind (use_cache g now unusable (fresh g.cache_interval_ns now cache))
unfolding use_cache take_sample sampled fresh
use_cache-IsBlind g now none e h = record { cache = refl; used = (now, refl) }
use_cache-IsBlind g now (some (s, taken_at)) e h =
    if_rule (λ (found : Option ResourceSnapshot). IsBlind (use_cache g now unusable found))
      (ltb 0 g.cache_interval_ns && leb taken_at now && ltb (now - taken_at) g.cache_interval_ns)
      (λ is_fresh. record { cache = rw e h; used = (taken_at, h) })
      (λ stale. record { cache = refl; used = (now, refl) })

snapshot-IsBlind :
    (g : Gate) (now : ℕ) (reply : SampleReply)
    → Blind g.cached
    → reply ≡ unusable
    → IsBlind (snapshot g now reply)
unfolding snapshot
snapshot-IsBlind g now reply h fails = rw fails (use_cache-IsBlind g now g.cached refl h)

-- A call that raises, or whose decision admits neither processing nor persistence.
abbrev pub Denies : Result BudgetDecision → Type 0
Denies (raise e) = Unit {0}
Denies (ok d) = (d.allow_processing ≡ false) × (d.allow_persistence ≡ false)

decided-Denies :
    (p : BudgetPolicy) (stage : Stage) (now bytes count n : ℕ) (r : Result BudgetDecision)
    → n ≤ max_int64
    → decide p stage (with_queue (unknown_snapshot now) bytes count) n ≡ r
    → Denies r
decided-Denies p stage now bytes count n (raise e) k h = tt
decided-Denies p stage now bytes count n (ok d) k h = unknown_denies p stage now bytes count n d k h

answer-Denies :
    (c : Call) (g : Gate) (r : Result (ℕ × ℕ × ℕ × ℕ))
    → checked c ≡ r
    → Blind g.cached
    → c.reply ≡ unusable
    → Blind (answer g c r).0.cached × Denies (answer g c r).1
unfolding answer
answer-Denies c g (raise e) k h fails = (h, tt)
answer-Denies c g (ok (estimate, bytes, count, now)) k h fails =
    let b = snapshot-IsBlind g now c.reply h fails in
    let (at, e) = b.used in
    (
      b.cache,
      decided-Denies g.policy c.stage at bytes count estimate _
          (checked_facts c estimate bytes count now k).1
          (ap {A = ResourceSnapshot}
            (λ s. decide g.policy c.stage (with_queue s bytes count) estimate) (sym e)),
    )

evaluate-Denies :
    (c : Call) (g : Gate)
    → Blind g.cached
    → c.reply ≡ unusable
    → Blind (evaluate c g).0.cached × Denies (evaluate c g).1
unfolding evaluate
evaluate-Denies c g h fails = answer-Denies c g (checked c) refl h fails

-- The results of the calls, one after the other.
unfoldable pub results : List Call → Gate → List (Result BudgetDecision)
results [] g = []
results (c ∷ cs) g = let (g', r) = evaluate c g in r ∷ results cs g'

abbrev pub AllFail : List Call → Type 0
AllFail [] = Unit {0}
AllFail (c ∷ cs) = (c.reply ≡ unusable) × AllFail cs

abbrev pub AllDeny : List (Result BudgetDecision) → Type 0
AllDeny [] = Unit {0}
AllDeny (r ∷ rs) = Denies r × AllDeny rs

-- As long as the sampler fails at every call, from a gate whose cache is empty or holds what a failed
-- sample left, no call of `evaluate` admits processing or persistence: each raises, or decides
-- against both, also where it uses the snapshot that an earlier failure left in the cache.
pub sampling_fails_closed :
    (cs : List Call) (g : Gate) → Blind g.cached → AllFail cs → AllDeny (results cs g)
unfolding results
sampling_fails_closed [] g h fails = tt
sampling_fails_closed (c ∷ cs) g h (fails, later) =
    let (h', d) = evaluate-Denies c g h fails in
    (d, sampling_fails_closed cs (evaluate c g).0 h' later)
