-- ===== src/Agent/Ledger/Tests.antt =====
-- agent/consent.py: a ledger at concrete calls.
use viskium.Prelude.{◌+◌, ◌*◌, ◌-◌, ◌≤◌, ◌≡◌, refl, some, true, List, [], ◌∷◌}
use viskium.Core.Value.{natural, is_text}
use viskium.Core.Envelope.{SensitivityClass}
use viskium.Agent.Grants.{Scopes, GrantDecisionReason, make_grant, evaluate_grant}
use viskium.Agent.Ledger.{
  ConsentState, File, holds, WriteOutcome, UnlinkOutcome, Weather, done, SnapshotReservation,
  make_state, load, grant, spend, second, reserve_snapshot,
}
use viskium.Agent.Ledger.Quota.{Request, serve_all, serve, reservations_within_quota}
use viskium.Agent.Ledger.Records.{Recorded, reserve_snapshot-Recorded}

abbrev fair : Weather
fair = record {
  locks = true;
  unlocks = true;
  write = WriteOutcome.replaced;
  unlink = UnlinkOutcome.removed;
}

abbrev both : Scopes
both = record { observation_read = true; snapshot_read = true }

abbrev granted : ConsentState
granted = record {
  grant = record {
    scopes = both;
    expires_unix_ns = 100 + 60 * second;
    snapshot_quota = 2;
    sensitivity_ceiling = SensitivityClass.sensitive;
  };
  created_unix_ns = 100;
  snapshot_attempts = 0;
  generation = 1;
}

grant_answers :
    grant fair both (natural 60) (natural 2) SensitivityClass.sensitive (natural 100) File.missing
    ≡ (holds granted, done granted)
unfolding grant make_grant is_text
grant_answers = refl

abbrev reservation : SnapshotReservation
reservation = record {
  is_allowed = true;
  reason = GrantDecisionReason.allowed;
  state = some (spend granted);
}

first_answer :
    (reserve_snapshot fair SensitivityClass.operational (natural 200) (holds granted)).1
    ≡ done reservation
unfolding reserve_snapshot load make_state evaluate_grant
first_answer = refl

reserve_snapshot-Recorded_example :
    Recorded
      (holds granted)
      (reserve_snapshot fair SensitivityClass.operational (natural 200) (holds granted)).0
      reservation
reserve_snapshot-Recorded_example =
    reserve_snapshot-Recorded fair SensitivityClass.operational (natural 200) (holds granted)
      reservation first_answer refl

-- Three reservations, of which the second cannot be written.
abbrev requests : List Request
requests =
    Request.reserves fair SensitivityClass.operational (natural 200)
    ∷ Request.reserves (record fair { write = WriteOutcome.failed_after })
        SensitivityClass.operational (natural 300)
    ∷ Request.reserves fair SensitivityClass.operational (natural 400)
    ∷ []

requests_served : serve_all requests (holds granted) ≡ 1
unfolding serve_all serve reserve_snapshot load make_state evaluate_grant
requests_served = refl

reservations_within_quota_example : serve_all requests (holds granted) ≤ 2 - 0
reservations_within_quota_example = reservations_within_quota requests granted
