-- ===== src/Agent/Ledger/Records.antt =====
-- agent/consent.py: what a grant and a reservation leave in the file.
use mathlib.Core.Path.{subst}
use viskium.Prelude.{
  ℕ, Option, none, some, Bool, true, false, if◌then◌else◌, ◌≡◌, refl, ap, ◌∙◌, arith,
}
use viskium.Core.Value.{Value, Result, ok, raise}
use viskium.Core.Envelope.{SensitivityClass}
use viskium.Agent.Grants.{GrantDecisionReason, GrantDecision, integer_from}
use viskium.Agent.Ledger.{
  ConsentState, make_state, File, missing, undecodable, holds, WriteOutcome, Weather, Reply, done,
  invalid, ledger_error, SnapshotReservation, load, write_file, written, spend, unlocked,
  record_attempt, refuse_attempt, spend_or_refuse, on_decision, on_load, reserve_at,
  reserve_snapshot,
}

-- The file holds one attempt more than before, in a state that passes its own checks.
pub record Recorded (f f' : File) (r : SnapshotReservation) : Type 0 where
  pub before : ConsentState
  pub held : f ≡ holds before
  pub recorded : f' ≡ holds (spend before)
  pub given : r.state ≡ some (spend before)
  pub valid : make_state (spend before) ≡ ok (spend before)

abbrev Records : File → File × Reply SnapshotReservation → Type 0
Records f (f', done r) = r.is_allowed ≡ true → Recorded f f' r
Records f (f', _) = Unit {0}

if-Records :
    (b : Bool) (f : File) (x y : File × Reply SnapshotReservation)
    → Records f x
    → Records f y
    → Records f (if b then x else y)
if-Records true f x y h k = h
if-Records false f x y h k = k

made_is_same : (s t : ConsentState) → make_state s ≡ ok t → t ≡ s
unfolding make_state
made_is_same s t h = ground arith

spent_reservation : ConsentState → SnapshotReservation
spent_reservation t = record {
  is_allowed = true;
  reason = GrantDecisionReason.allowed;
  state = some t;
}

-- The lock and the write, by how they end.
outcome-Records :
    (o : WriteOutcome) (unlocks : Bool) (s t : ConsentState)
    → make_state (spend s) ≡ ok t
    → t ≡ spend s
    → Records (holds s) (
      write_file o t (holds s),
      if unlocks
          then (elim o [ WriteOutcome.replaced ↦ done (spent_reservation t) | _ ↦ ledger_error ])
          else ledger_error,
    )
unfolding write_file spent_reservation
outcome-Records o false s t h e = tt
outcome-Records WriteOutcome.failed_before true s t h e = tt
outcome-Records WriteOutcome.failed_after true s t h e = tt
outcome-Records WriteOutcome.replaced true s t h e = λ _. record {
  before = s;
  held = refl;
  recorded = ap holds e;
  given = ap some e;
  valid = h ∙ ap ok e;
}

unlocked-Records :
    (b : Bool) (f : File) (r : Reply SnapshotReservation)
    → Records f (f, r)
    → Records f (f, if b then r else ledger_error)
unlocked-Records true f r h = h
unlocked-Records false f r h = tt

no_record :
    (w : Weather) (f : File) (r : Reply SnapshotReservation)
    → Records f (f, r)
    → Records f (f, unlocked w r)
unfolding unlocked
no_record w f r h = unlocked-Records w.unlocks f r h

record_attempt-Records :
    (w : Weather) (s : ConsentState) (r : Result ConsentState)
    → make_state (spend s) ≡ r
    → Records (holds s) (record_attempt w r (holds s))
unfolding record_attempt written spent_reservation
record_attempt-Records w s (raise e) h = no_record w (holds s) (invalid e) tt
record_attempt-Records w s (ok t) h =
    outcome-Records w.write w.unlocks s t h (made_is_same (spend s) t h)

refused-Records :
    (w : Weather) (d : GrantDecision) (s : Option ConsentState) (f : File)
    → Records f (f, unlocked w (refuse_attempt d s))
unfolding refuse_attempt
refused-Records w d s f = no_record w f (refuse_attempt d s) (λ e. absurd (ground arith))

decision-Records :
    (w : Weather) (r : Result GrantDecision) (s : ConsentState)
    → Records (holds s) (on_decision w r (some s) (holds s))
unfolding on_decision spend_or_refuse
decision-Records w (raise e) s = no_record w (holds s) (invalid e) tt
decision-Records w (ok d) s =
    if-Records d.is_allowed (holds s) (record_attempt w (make_state (spend s)) (holds s))
      (holds s, unlocked w (refuse_attempt d (some s)))
      (record_attempt-Records w s (make_state (spend s)) refl)
      (refused-Records w d (some s) (holds s))

missing-Records :
    (w : Weather) (r : Result GrantDecision) → Records missing (on_decision w r none missing)
unfolding on_decision spend_or_refuse
missing-Records w (raise e) = no_record w missing (invalid e) tt
missing-Records w (ok d) = refused-Records w d none missing

loaded-Records :
    (w : Weather) (sensitivity : SensitivityClass) (now : ℕ) (f : File)
    → Records f (on_load w sensitivity now (load f) f)
unfolding on_load load
loaded-Records w sensitivity now missing = missing-Records w _
loaded-Records w sensitivity now undecodable = tt
loaded-Records w sensitivity now (holds s) = decision-Records w _ s

reserve_at-Records :
    (w : Weather) (sensitivity : SensitivityClass) (now : Result ℕ) (f : File)
    → Records f (reserve_at w sensitivity now f)
unfolding reserve_at
reserve_at-Records w sensitivity (raise e) f = tt
reserve_at-Records w sensitivity (ok now) f =
    if-Records w.locks f (on_load w sensitivity now (load f) f) (f, ledger_error)
      (loaded-Records w sensitivity now f) tt

Records-done :
    (f f' : File) (a : Reply SnapshotReservation) (r : SnapshotReservation)
    → Records f (f', a)
    → a ≡ done r
    → r.is_allowed ≡ true
    → Recorded f f' r
Records-done f f' (done r') r h e k =
    let same : r' ≡ r = cc in
    subst (λ q. Recorded f f' q) same (h (ap (λ q. q.is_allowed) same ∙ k))
Records-done f f' (invalid x) r h e k = absurd (ground arith)
Records-done f f' ledger_error r h e k = absurd (ground arith)

-- A reservation that is allowed was recorded before it was given: the file held a state, and now
-- holds the same grant with one attempt and one generation more, which passes the checks of
-- `ConsentState`.
pub reserve_snapshot-Recorded :
    (w : Weather) (sensitivity : SensitivityClass) (now : Value) (f : File)
    (r : SnapshotReservation)
    → let (f', a) = reserve_snapshot w sensitivity now f in
      a ≡ done r → r.is_allowed ≡ true → Recorded f f' r
unfolding reserve_snapshot
reserve_snapshot-Recorded w sensitivity now f r e k =
    Records-done f _ _ r (reserve_at-Records w sensitivity (integer_from 0 now) f) e k
