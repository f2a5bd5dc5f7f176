-- ===== src/Observations/Latest/Read/Fresh.antt =====
-- observations/latest.py: what the answers of `read` say of the slot.
use viskium.Prelude.{
  ℕ, ◌+◌, ◌≤◌, ◌<◌, ◌≡◌, Option, none, some, Bool, true, false, ◌||◌, List, [], ◌∷◌, inl, inr, inl,
  inr,
}
use viskium.Core.Value.{Value, ok}
use viskium.Core.Envelope.{ObservationEnvelope}
use viskium.Observations.Latest.{ReadOutcome, LatestObservationSlot}
use viskium.Observations.Latest.Arguments.{accepts, is_zero}
use viskium.Observations.Latest.Read.{
  ReadResult, returned, raised, waiting, Query, Arguments, Turn, LoopEnd, woken, expired,
  unfinished, must_wait,
}

abbrev pub some_expired : List Turn → Bool
some_expired [] = false
some_expired (t ∷ ts) = t.expired || some_expired ts

-- The slot holds an observation of which this is true.
abbrev pub Holds : (ObservationEnvelope → Type 0) → Option ObservationEnvelope → Type 0
Holds P none = ⊥
Holds P (some o) = P o

abbrev pub WithinTtl : ℕ → Option ℕ → Type 0
WithinTtl age none = Unit {0}
WithinTtl age (some ttl) = age ≤ ttl

abbrev pub IsInTime : ℕ → Query → ObservationEnvelope → Type 0
IsInTime age q o = (age ≤ q.max_age_ns) × WithinTtl age o.ttl_ns

-- What each outcome says, of the slot as `read` leaves it.
abbrev pub Says :
    List Turn
    → Query
    → LatestObservationSlot
    → ReadOutcome
    → Option ObservationEnvelope
    → Option ℕ
    → Type 0
Says ts q s ReadOutcome.ok (some o) (some age) =
    (s.latest ≡ some o)
    × (q.now_ns ≤ o.observed_monotonic_ns + age)
    × IsInTime age q o
    × (accepts q.schemas o.schema_id ≡ true)
Says ts q s ReadOutcome.stale none (some age) = Holds (λ o. ¬ IsInTime age q o) s.latest
Says ts q s ReadOutcome.schema_mismatch none (some age) =
    Holds (λ o. IsInTime age q o × (accepts q.schemas o.schema_id ≡ false)) s.latest
Says ts q s ReadOutcome.future_timestamp none none =
    Holds (λ o. q.now_ns < o.observed_monotonic_ns) s.latest
Says ts q s ReadOutcome.empty none none =
    (s.latest ≡ none) × (s.is_closed ≡ false) × (is_zero q.max_wait ≡ true)
Says ts q s ReadOutcome.timeout none none =
    (s.latest ≡ none) × (s.is_closed ≡ false) × (some_expired ts ≡ true)
Says ts q s ReadOutcome.closed none none = s.is_closed ≡ true
Says ts q s _ _ _ = ⊥

abbrev pub Ensures : List Turn → Query → LatestObservationSlot × ReadResult → Type 0
Ensures ts q (s, returned r) = Says ts q s r.outcome r.observation r.age_ns
Ensures ts q (s, raised e) = Unit {0}
Ensures ts q (s, waiting) = must_wait s ≡ true

module _ (ts : List Turn) (q : Query) where
  -- How the loop leaves the slot.
  abbrev LoopSays : List Turn → LatestObservationSlot × LoopEnd → Type 0
  LoopSays us (s, woken) = must_wait s ≡ false
  LoopSays us (s, expired) = (must_wait s ≡ true) × (some_expired us ≡ true)
  LoopSays us (s, unfinished) = must_wait s ≡ true
