-- ===== src/Observations/Latest/Read/Ends.antt =====
-- observations/latest.py: the end of `read`.
use viskium.Prelude.{
  ℕ, ◌+◌, ◌-◌, ◌≡◌, refl, Option, none, some, true, List, [], ◌∷◌, arith, ltb, if_rule,
}
use viskium.Core.Value.{natural, ok}
use viskium.Core.Envelope.{ObservationEnvelope}
use viskium.Observations.Latest.{LatestObservationSlot, make_read, apply_all}
use viskium.Observations.Latest.Arguments.{accepts, is_zero, require_non_negative_integer}
use viskium.Observations.Latest.Read.{
  ReadResult, returned, Query, Arguments, Turn, LoopEnd, woken, expired, unfinished, must_wait,
  wait_loop, read_checked, check_arguments, read, judge, finish_read, after_wait, shortest,
}
use viskium.Observations.Latest.Read.Fresh.{some_expired}

abbrev pub Returns : LatestObservationSlot × ReadResult → Type 0
Returns (s, returned r) = Unit {0}
Returns _ = ⊥

abbrev Ends : LatestObservationSlot × LoopEnd → Type 0
Ends (s, unfinished) = ⊥
Ends _ = Unit {0}

judge-Returns :
    (now : ℕ) (q : Query) (o : ObservationEnvelope) (s : LatestObservationSlot)
    → Returns (judge now q o s)
unfolding judge finish_read make_read
judge-Returns now q o s =
    let age = now - o.observed_monotonic_ns in
    if_rule Returns (ltb now o.observed_monotonic_ns) (λ _. tt)
      (λ _.
        if_rule Returns (ltb (shortest q.max_age_ns o.ttl_ns) age) (λ _. tt)
          (λ _. if_rule Returns (accepts q.schemas o.schema_id) (λ _. tt) (λ _. tt)))

wait_loop-Ends :
    (ts : List Turn) (s : LatestObservationSlot) → some_expired ts ≡ true → Ends (wait_loop ts s)
unfolding wait_loop
wait_loop-Ends [] s h = absurd (ground arith)
wait_loop-Ends (t ∷ ts) s h =
    if_rule Ends (must_wait s)
      (λ _.
        if_rule Ends t.expired (λ _. tt)
          (λ early. wait_loop-Ends ts (apply_all t.meanwhile s) (ground arith)))
      (λ _. tt)

after_woken-Returns :
    (started m : ℕ) (q : Query) (s : LatestObservationSlot) (held : Option ObservationEnvelope)
    → s.latest ≡ held
    → Returns (after_wait started (natural m) q (s, woken))
unfolding after_wait finish_read make_read require_non_negative_integer
after_woken-Returns started m q s none e = if_rule Returns s.is_closed (λ _. tt) (λ _. rw e tt)
after_woken-Returns started m q s (some o) e =
    if_rule Returns s.is_closed (λ _. tt)
      (λ _. rw e (judge-Returns (q.now_ns + (m - started)) q o s))

after_wait-Returns :
    (started m : ℕ) (q : Query) (r : LatestObservationSlot × LoopEnd)
    → Ends r
    → Returns (after_wait started (natural m) q r)
unfolding after_wait finish_read make_read
after_wait-Returns started m q (s, unfinished) h = absurd h
after_wait-Returns started m q (s, expired) h = tt
after_wait-Returns started m q (s, woken) h = after_woken-Returns started m q s s.latest refl

read_checked-Returns :
    (n m : ℕ) (ts : List Turn) (q : Query) (s : LatestObservationSlot)
    (held : Option ObservationEnvelope)
    → s.latest ≡ held
    → some_expired ts ≡ true
    → Returns (read_checked (natural n, natural m) ts q s)
unfolding read_checked require_non_negative_integer finish_read make_read
read_checked-Returns n m ts q s (some o) e h =
    if_rule Returns s.is_closed (λ _. tt) (λ _. rw e (judge-Returns q.now_ns q o s))
read_checked-Returns n m ts q s none e h =
    if_rule Returns s.is_closed (λ _. tt)
      (λ _. rw e (
        if_rule Returns (is_zero q.max_wait) (λ _. tt)
          (λ _. after_wait-Returns n m q (wait_loop ts s) (wait_loop-Ends ts s h))))

-- `read` ends, and no exception leaves it: with arguments that pass the checks and a clock that reads
-- natural numbers, it returns an answer once a turn of its loop finds the deadline passed.
pub read-Returns :
    (n m : ℕ) (ts : List Turn) (a : Arguments) (q : Query) (s : LatestObservationSlot)
    → check_arguments a ≡ ok q
    → some_expired ts ≡ true
    → Returns (read (natural n, natural m) ts a s)
unfolding read
read-Returns n m ts a q s h late = rw (h, read) (read_checked-Returns n m ts q s s.latest refl late)
