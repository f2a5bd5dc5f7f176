-- ===== src/Agent/Ledger.antt =====
-- agent/consent.py: `ConsentLedger`. The file, its lock and the clock answer each call as a `Weather`
-- says; the file's text is left out, so that a file holds a state or cannot be decoded.
pub mod Quota
pub mod Records
mod Tests
use viskium.Prelude.{
  ℕ, ◌+◌, ◌-◌, ◌*◌, ◌^◌, Option, none, some, Bool, true, false, not, ◌&&◌, ◌||◌, leb, ltb, ◌==◌,
  List, [], ◌∷◌, if◌then◌else◌,
}
use viskium.Core.Value.{
  Value, natural, Error, Result, ok, raise, value_error, ◌>>=◌, ◌>>◌, refuse_if, require_integer,
}
use viskium.Core.Envelope.{SensitivityClass}
use viskium.Agent.Grants.{
  max_int64, AgentScope, Scopes, GrantDecisionReason, ConsentGrant, GrantDecision, make_grant,
  evaluate_grant, integer_from,
}

abbrev pub max_consent_duration_seconds : ℕ
max_consent_duration_seconds = 7 * 86_400

abbrev pub max_snapshot_quota : ℕ
max_snapshot_quota = 1_024

abbrev pub second : ℕ
second = 1_000_000_000

pub record ConsentState : Type 0 where
  pub grant : ConsentGrant
  pub created_unix_ns : ℕ
  pub snapshot_attempts : ℕ
  pub generation : ℕ

-- `ConsentState.__post_init__`
unfoldable pub make_state : ConsentState → Result ConsentState
make_state s = do
  refuse_if (ltb max_int64 s.created_unix_ns)
  refuse_if (ltb max_int64 s.snapshot_attempts)
  refuse_if (ltb max_int64 s.generation)
  refuse_if (ltb s.grant.snapshot_quota s.snapshot_attempts)
  refuse_if (ltb max_snapshot_quota s.grant.snapshot_quota)
  refuse_if (ltb s.grant.expires_unix_ns (s.created_unix_ns + 1))
  refuse_if
      (ltb (s.created_unix_ns + max_consent_duration_seconds * second) s.grant.expires_unix_ns)
  refuse_if (not (s.generation == s.snapshot_attempts + 1))
  ok s

pub data File : Type 0 where
  missing undecodable : File
  holds : ConsentState → File

-- How `_write` ends: the file is replaced; it fails before the replacement; or it
-- fails after it, when the directory is made durable.
pub data WriteOutcome : Type 0 where
  replaced failed_before failed_after : WriteOutcome

-- How `unlink` and the sync behind it end.
pub data UnlinkOutcome : Type 0 where
  removed refused removed_unsynced : UnlinkOutcome

pub record Weather : Type 0 where
  pub locks : Bool
  pub unlocks : Bool
  pub write : WriteOutcome
  pub unlink : UnlinkOutcome

-- `invalid` is a TypeError or a ValueError, and `ledger_error` a ConsentLedgerError.
pub data Reply (A : Type 0) : Type 0 where
  done : A → Reply A
  invalid : Error → Reply A
  ledger_error : Reply A

pub record SnapshotReservation : Type 0 where
  pub is_allowed : Bool
  pub reason : GrantDecisionReason
  pub state : Option ConsentState

-- `load`
unfoldable pub load : File → Reply (Option ConsentState)
load missing = done none
load undecodable = ledger_error
load (holds s) = done (some s)

write_file : WriteOutcome → ConsentState → File → File
write_file replaced s f = holds s
write_file failed_before s f = f
write_file failed_after s f = holds s

-- `_mutation_lock` around `_write`, with what the method then returns.
written : {A : Type 0} → Weather → A → Reply A
written w a =
    if w.unlocks then (elim w.write [ replaced ↦ done a | _ ↦ ledger_error ]) else ledger_error

-- The integers and the state that `grant` makes, for a public id of its own.
new_state : Scopes → Value → Value → SensitivityClass → Value → Result ConsentState
new_state scopes duration_seconds snapshot_quota ceiling now = do
  duration ← require_integer 1 (some max_consent_duration_seconds) duration_seconds
  quota ← require_integer 0 (some max_snapshot_quota) snapshot_quota
  created ← integer_from 0 now
  expires ← require_integer (created + 1) (some max_int64) (natural (created + duration * second))
  g ← make_grant (Value.string "grant") scopes (natural expires) (natural quota) ceiling
  make_state
      (record { grant = g; created_unix_ns = created; snapshot_attempts = 0; generation = 1 })

store_new : Weather → Result ConsentState → File → File × Reply ConsentState
unfolding write_file written
store_new w (raise e) f = (f, invalid e)
store_new w (ok s) f = if w.locks then (write_file w.write s f, written w s) else (f, ledger_error)

-- `grant`
unfoldable pub grant :
    Weather → Scopes → Value → Value → SensitivityClass → Value → File → File × Reply ConsentState
unfolding new_state store_new make_state
grant w scopes duration quota ceiling now f =
    store_new w (new_state scopes duration quota ceiling now) f

remove_file : UnlinkOutcome → Bool → File → File × Reply Bool
remove_file o unlocks missing = (missing, if unlocks then done false else ledger_error)
remove_file removed unlocks f = (missing, if unlocks then done true else ledger_error)
remove_file refused unlocks f = (f, ledger_error)
remove_file removed_unsynced unlocks f = (missing, ledger_error)

-- `revoke`
unfoldable pub revoke : Weather → File → File × Reply Bool
unfolding remove_file
revoke w f = if w.locks then remove_file w.unlink w.unlocks f else (f, ledger_error)

-- One attempt is taken from the quota, before the snapshot.
abbrev pub spend : ConsentState → ConsentState
spend s = record s { snapshot_attempts = s.snapshot_attempts + 1; generation = s.generation + 1 }

unlocked : {A : Type 0} → Weather → Reply A → Reply A
unlocked w r = if w.unlocks then r else ledger_error

record_attempt : Weather → Result ConsentState → File → File × Reply SnapshotReservation
unfolding write_file written unlocked
record_attempt w (raise e) f = (f, unlocked w (invalid e))
record_attempt w (ok s) f = (
  write_file w.write s f,
  written w (record { is_allowed = true; reason = GrantDecisionReason.allowed; state = some s }),
)

refuse_attempt : GrantDecision → Option ConsentState → Reply SnapshotReservation
refuse_attempt d s = done (record { is_allowed = false; reason = d.reason; state = s })

spend_or_refuse :
    Weather → GrantDecision → Option ConsentState → File → File × Reply SnapshotReservation
unfolding record_attempt refuse_attempt unlocked
spend_or_refuse w d none f = (f, unlocked w (refuse_attempt d none))
spend_or_refuse w d (some s) f =
    if d.is_allowed
    then record_attempt w (make_state (spend s)) f
    else (f, unlocked w (refuse_attempt d (some s)))

on_decision :
    Weather → Result GrantDecision → Option ConsentState → File → File × Reply SnapshotReservation
unfolding spend_or_refuse unlocked
on_decision w (raise e) s f = (f, unlocked w (invalid e))
on_decision w (ok d) s f = spend_or_refuse w d s f

abbrev ask : Option ConsentState → SensitivityClass → ℕ → Result GrantDecision
ask none sensitivity now =
    evaluate_grant none AgentScope.snapshot_read sensitivity (natural now) (natural 0)
ask (some s) sensitivity now =
    evaluate_grant (some s.grant) AgentScope.snapshot_read sensitivity (natural now)
      (natural s.snapshot_attempts)

on_load :
    Weather
    → SensitivityClass
    → ℕ
    → Reply (Option ConsentState)
    → File
    → File × Reply SnapshotReservation
unfolding on_decision
on_load w sensitivity now (done s) f = on_decision w (ask s sensitivity now) s f
on_load w sensitivity now (invalid e) f = (f, unlocked w (invalid e))
on_load w sensitivity now ledger_error f = (f, ledger_error)

reserve_at : Weather → SensitivityClass → Result ℕ → File → File × Reply SnapshotReservation
unfolding on_load load
reserve_at w sensitivity (raise e) f = (f, invalid e)
reserve_at w sensitivity (ok now) f =
    if w.locks then on_load w sensitivity now (load f) f else (f, ledger_error)

-- `reserve_snapshot`
unfoldable pub reserve_snapshot :
    Weather → SensitivityClass → Value → File → File × Reply SnapshotReservation
unfolding reserve_at
reserve_snapshot w sensitivity now f = reserve_at w sensitivity (integer_from 0 now) f
