-- ===== src/Agent/Grants/Tests.antt =====
-- agent/contracts.py: a grant at concrete questions.
use viskium.Prelude.{◌≡◌, ◌≤◌, ◌<◌, ◌⊎◌, refl, ◌↔◌, some, true, arith}
use viskium.Core.Value.{Value, natural, ok, raise, value_error, is_text}
use viskium.Core.Envelope.{SensitivityClass}
use viskium.Agent.Grants.{
  max_int64, AgentScope, Scopes, ConsentGrant, GrantDecision, make_grant, evaluate_grant,
}
use viskium.Agent.Grants.Authority.{
  allowed_decision, AuthorizedBy, says_allowed, evaluate_grant-allowed_iff, evaluate_grant_decides,
}

abbrev both : Scopes
both = record { observation_read = true; snapshot_read = true }

abbrev a_grant : ConsentGrant
a_grant = record {
  scopes = both;
  expires_unix_ns = 5_000;
  snapshot_quota = 2;
  sensitivity_ceiling = SensitivityClass.sensitive;
}

grant_made :
    make_grant (Value.string "g1") both (natural 5_000) (natural 2) SensitivityClass.sensitive
    ≡ ok a_grant
unfolding make_grant is_text
grant_made = refl

evaluate_grant-allowed_iff_example :
    (evaluate_grant
        (some a_grant)
        AgentScope.snapshot_read
        SensitivityClass.operational
        (natural 4_999)
        (natural 1)
      ≡ ok allowed_decision)
    ↔ AuthorizedBy (some a_grant) AgentScope.snapshot_read SensitivityClass.operational 4_999 1
evaluate_grant-allowed_iff_example =
    evaluate_grant-allowed_iff (some a_grant) AgentScope.snapshot_read SensitivityClass.operational
      4_999 1 (omega arith) (omega arith)

evaluate_grant_decides_example :
    let r =
      evaluate_grant
        (some a_grant)
        AgentScope.snapshot_read
        SensitivityClass.identifiable
        (natural 10)
        (natural 0) in
    (((10 ≤ max_int64) × (0 ≤ max_int64))
      × ((d : GrantDecision) × (r ≡ ok d) × (d.is_allowed ≡ says_allowed d.reason)))
    ⊎ (((max_int64 < 10) ⊎ (max_int64 < 0)) × (r ≡ raise value_error))
evaluate_grant_decides_example =
    evaluate_grant_decides (Value.string "g1") both (natural 5_000) (natural 2)
      SensitivityClass.sensitive a_grant AgentScope.snapshot_read SensitivityClass.identifiable 10 0
      grant_made
