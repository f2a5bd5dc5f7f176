-- ===== src/Agent/Ledger/Quota.antt =====
-- agent/consent.py: the quota over any sequence of calls.
use viskium.Prelude.{
  ℕ, ◌+◌, ◌-◌, ◌≤◌, ◌<◌, Option, none, some, Bool, true, false, List, [], ◌∷◌, if◌then◌else◌,
  int_of_bool, ◌≡◌, refl, arith,
}
use viskium.Core.Value.{Value, Error, Result, ok, raise}
use viskium.Core.Envelope.{SensitivityClass}
use viskium.Agent.Grants.{GrantDecision, integer_from}
use viskium.Agent.Grants.Authority.{allowed-in_quota}
use viskium.Agent.Ledger.{
  ConsentState, make_state, File, missing, undecodable, holds, UnlinkOutcome, Weather, Reply, done,
  invalid, ledger_error, SnapshotReservation, load, write_file, written, remove_file, revoke, spend,
  unlocked, record_attempt, refuse_attempt, spend_or_refuse, on_decision, ask, on_load, reserve_at,
  reserve_snapshot,
}

-- Attempts that a file still allows.
abbrev pub room : File → ℕ
room (holds s) = s.grant.snapshot_quota - s.snapshot_attempts
room _ = 0

abbrev pub allowed_count : Reply SnapshotReservation → ℕ
allowed_count (done r) = int_of_bool r.is_allowed
allowed_count _ = 0

-- A call never allows what the file has no room for.
abbrev Spends : File → File × Reply SnapshotReservation → Type 0
Spends f (f', r) = allowed_count r + room f' ≤ room f

if-Spends :
    (b : Bool) (f : File) (x y : File × Reply SnapshotReservation)
    → (b ≡ true → Spends f x)
    → (b ≡ false → Spends f y)
    → Spends f (if b then x else y)
if-Spends true f x y h k = h refl
if-Spends false f x y h k = k refl

unlocked_refusal :
    (w : Weather) (d : GrantDecision) (s : Option ConsentState)
    → allowed_count (unlocked w (refuse_attempt d s)) ≡ 0
unfolding unlocked refuse_attempt
unlocked_refusal w d s = ground arith

unlocked_invalid : (w : Weather) (e : Error) → allowed_count (unlocked w (invalid e)) ≡ 0
unfolding unlocked
unlocked_invalid w e = ground arith

made_is_same : (s t : ConsentState) → make_state s ≡ ok t → t ≡ s
unfolding make_state
made_is_same s t h = ground arith

record_attempt-Spends :
    (w : Weather) (s : ConsentState) (r : Result ConsentState)
    → make_state (spend s) ≡ r
    → s.snapshot_attempts < s.grant.snapshot_quota
    → Spends (holds s) (record_attempt w r (holds s))
unfolding record_attempt write_file written
record_attempt-Spends w s (raise e) h k = ground (arith, unlocked_invalid w e)
record_attempt-Spends w s (ok t) h k = ground (arith, made_is_same (spend s) t h)

spend_or_refuse-Spends :
    (w : Weather) (d : GrantDecision) (s : ConsentState)
    → (d.is_allowed ≡ true → s.snapshot_attempts < s.grant.snapshot_quota)
    → Spends (holds s) (spend_or_refuse w d (some s) (holds s))
unfolding spend_or_refuse
spend_or_refuse-Spends w d s in_quota =
    if-Spends d.is_allowed (holds s) (record_attempt w (make_state (spend s)) (holds s))
      (holds s, unlocked w (refuse_attempt d (some s)))
      (λ a. record_attempt-Spends w s (make_state (spend s)) refl (in_quota a)) (λ a. ground arith)

on_decision-Spends :
    (w : Weather) (r : Result GrantDecision) (s : ConsentState)
    → ((d : GrantDecision)
        → r ≡ ok d
        → d.is_allowed ≡ true
        → s.snapshot_attempts < s.grant.snapshot_quota)
    → Spends (holds s) (on_decision w r (some s) (holds s))
unfolding on_decision
on_decision-Spends w (raise e) s f = ground (arith, unlocked_invalid w e)
on_decision-Spends w (ok d) s f = spend_or_refuse-Spends w d s (f d refl)

on_missing-Spends :
    (w : Weather) (r : Result GrantDecision) → Spends missing (on_decision w r none missing)
unfolding on_decision spend_or_refuse
on_missing-Spends w (raise e) = ground (arith, unlocked_invalid w e)
on_missing-Spends w (ok d) = ground (arith, unlocked_refusal w d none)

loaded-Spends :
    (w : Weather) (sensitivity : SensitivityClass) (now : ℕ) (f : File)
    → Spends f (on_load w sensitivity now (load f) f)
unfolding on_load load
loaded-Spends w sensitivity now missing = on_missing-Spends w _
loaded-Spends w sensitivity now undecodable = ground arith
loaded-Spends w sensitivity now (holds s) =
    on_decision-Spends w (ask (some s) sensitivity now) s
      (λ d e a. allowed-in_quota s.grant sensitivity now s.snapshot_attempts d e a)

reserve_at-Spends :
    (w : Weather) (sensitivity : SensitivityClass) (now : Result ℕ) (f : File)
    → Spends f (reserve_at w sensitivity now f)
unfolding reserve_at
reserve_at-Spends w sensitivity (raise e) f = ground arith
reserve_at-Spends w sensitivity (ok now) f =
    if-Spends w.locks f (on_load w sensitivity now (load f) f) (f, ledger_error)
      (λ _. loaded-Spends w sensitivity now f) (λ _. ground arith)

reserve_snapshot-Spends :
    (w : Weather) (sensitivity : SensitivityClass) (now : Value) (f : File)
    → Spends f (reserve_snapshot w sensitivity now f)
unfolding reserve_snapshot
reserve_snapshot-Spends w sensitivity now f = reserve_at-Spends w sensitivity (integer_from 0 now) f

remove_file-room : (o : UnlinkOutcome) (b : Bool) (f : File) → room (remove_file o b f).0 ≤ room f
unfolding remove_file
remove_file-room o b missing = ground arith
remove_file-room UnlinkOutcome.removed b f = ground arith
remove_file-room UnlinkOutcome.refused b f = ground arith
remove_file-room UnlinkOutcome.removed_unsynced b f = ground arith

revoke-room : (w : Weather) (f : File) → room (revoke w f).0 ≤ room f
unfolding revoke
revoke-room w f = ground (arith, remove_file-room w.unlink w.unlocks f)

-- Calls of any processes between two grants, and how many reservations they get.
pub data Request : Type 0 where
  reserves : Weather → SensitivityClass → Value → Request
  revokes : Weather → Request

unfoldable pub serve : Request → File → File × ℕ
serve (reserves w sensitivity now) f =
    let (f', r) = reserve_snapshot w sensitivity now f in (f', allowed_count r)
serve (revokes w) f = ((revoke w f).0, 0)

unfoldable pub serve_all : List Request → File → ℕ
unfolding serve
serve_all [] f = 0
serve_all (q ∷ qs) f = let (f', n) = serve q f in n + serve_all qs f'

serve-Spends : (q : Request) (f : File) → let (f', n) = serve q f in n + room f' ≤ room f
unfolding serve
serve-Spends (reserves w sensitivity now) f = reserve_snapshot-Spends w sensitivity now f
serve-Spends (revokes w) f = omega (arith, revoke-room w f)

serve_all-room : (qs : List Request) (f : File) → serve_all qs f ≤ room f
unfolding serve_all
serve_all-room [] f = omega arith
serve_all-room (q ∷ qs) f = omega (arith, serve-Spends q f, serve_all-room qs (serve q f).0)

-- However the calls of `reserve_snapshot` and `revoke` of any processes follow each other, and
-- whichever of their locks, writes and unlinks fail, the reservations that one grant gives are never
-- more than its quota less the attempts that were already recorded.
pub reservations_within_quota :
    (qs : List Request) (s : ConsentState)
    → serve_all qs (holds s) ≤ s.grant.snapshot_quota - s.snapshot_attempts
reservations_within_quota qs s = serve_all-room qs (holds s)
