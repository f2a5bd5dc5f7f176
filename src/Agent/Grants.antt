-- ===== src/Agent/Grants.antt =====
-- agent/contracts.py: `ConsentGrant` and `evaluate_grant`.
pub mod Authority
mod Tests
use viskium.Prelude.{
  ℕ, ◌-◌, ◌^◌, String, Option, none, some, Bool, true, false, not, ◌&&◌, leb, ltb, if◌then◌else◌,
}
use viskium.Core.Value.{
  Value, Error, key_error, Result, ok, raise, value_error, ◌>>=◌, ◌>>◌, refuse_if, require_integer,
  require_text,
}
use viskium.Core.Envelope.{SensitivityClass}

abbrev pub max_int64 : ℕ
max_int64 = 2 ^ 63 - 1

abbrev pub max_public_id_chars : ℕ
max_public_id_chars = 128

pub data AgentScope : Type 0 where
  observation_read snapshot_read : AgentScope

-- A set of the two scopes.
pub record Scopes : Type 0 where
  pub observation_read : Bool
  pub snapshot_read : Bool

pub data GrantDecisionReason : Type 0 where
  allowed grant_missing grant_expired scope_missing sensitivity_denied : GrantDecisionReason
  snapshot_quota_exhausted prohibited : GrantDecisionReason

-- `public_id` is left out: no decision depends on it.
pub record ConsentGrant : Type 0 where
  pub scopes : Scopes
  pub expires_unix_ns : ℕ
  pub snapshot_quota : ℕ
  pub sensitivity_ceiling : SensitivityClass

pub record GrantDecision : Type 0 where
  pub is_allowed : Bool
  pub reason : GrantDecisionReason

-- `_SENSITIVITY_RANK`
abbrev pub rank : SensitivityClass → Option ℕ
rank SensitivityClass.public = some 0
rank SensitivityClass.operational = some 1
rank SensitivityClass.sensitive = some 2
rank SensitivityClass.identifiable = some 3
rank SensitivityClass.prohibited = none

abbrev pub is_prohibited : SensitivityClass → Bool
is_prohibited SensitivityClass.prohibited = true
is_prohibited _ = false

abbrev pub integer_from : ℕ → Value → Result ℕ
integer_from minimum = require_integer minimum (some max_int64)

-- `ConsentGrant(...)`, for a public id that is a string and scopes that are known.
unfoldable pub make_grant : Value → Scopes → Value → Value → SensitivityClass → Result ConsentGrant
make_grant public_id scopes expires quota ceiling = do
  id ← require_text max_public_id_chars public_id
  expires_ns ← integer_from 1 expires
  attempts ← integer_from 0 quota
  refuse_if (is_prohibited ceiling)
  ok (record {
    scopes = scopes;
    expires_unix_ns = expires_ns;
    snapshot_quota = attempts;
    sensitivity_ceiling = ceiling;
  })

abbrev pub has_scope : AgentScope → Scopes → Bool
has_scope AgentScope.observation_read s = s.observation_read
has_scope AgentScope.snapshot_read s = s.snapshot_read

abbrev pub is_snapshot : AgentScope → Bool
is_snapshot AgentScope.snapshot_read = true
is_snapshot _ = false

abbrev pub deny : GrantDecisionReason → Result GrantDecision
deny r = ok (record { is_allowed = false; reason = r })

-- `_SENSITIVITY_RANK[...]`
look_up : Option ℕ → Result ℕ
look_up none = raise key_error
look_up (some n) = ok n

judge_quota : ConsentGrant → AgentScope → ℕ → Result GrantDecision
judge_quota g scope used =
    if is_snapshot scope && leb g.snapshot_quota used
    then deny snapshot_quota_exhausted
    else ok (record { is_allowed = true; reason = allowed })

judge_sensitivity : ConsentGrant → AgentScope → SensitivityClass → ℕ → Result GrantDecision
unfolding look_up judge_quota
judge_sensitivity g scope s used = do
  wanted ← look_up (rank s)
  ceiling ← look_up (rank g.sensitivity_ceiling)
  if ltb ceiling wanted then deny sensitivity_denied else judge_quota g scope used

judge_grant : Option ConsentGrant → AgentScope → SensitivityClass → ℕ → ℕ → Result GrantDecision
unfolding judge_sensitivity
judge_grant none scope s now used = deny grant_missing
judge_grant (some g) scope s now used =
    if leb g.expires_unix_ns now
    then deny grant_expired
    else if not (has_scope scope g.scopes)
    then deny scope_missing
    else judge_sensitivity g scope s used

judge : Option ConsentGrant → AgentScope → SensitivityClass → ℕ → ℕ → Result GrantDecision
unfolding judge_grant
judge grant scope s now used =
    if is_prohibited s then deny prohibited else judge_grant grant scope s now used

-- `evaluate_grant`
unfoldable pub evaluate_grant :
    Option ConsentGrant → AgentScope → SensitivityClass → Value → Value → Result GrantDecision
unfolding judge
evaluate_grant grant scope s now_unix_ns snapshots_used = do
  now ← integer_from 0 now_unix_ns
  used ← integer_from 0 snapshots_used
  judge grant scope s now used
