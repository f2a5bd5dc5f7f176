-- ===== src/Core/Sample.antt =====
-- An `ObservationEnvelope` of core/contracts.py, for tests.
use viskium.Prelude.{ℕ, String, none, some, []}
use viskium.Core.Envelope.{ObservationEnvelope, SensitivityClass, PersistenceClass, no_members}

-- Its key and its time are given.
abbrev pub sample : String → ℕ → ObservationEnvelope
sample key n = record {
  session_id = "live";
  source_id = "front";
  stream_epoch = 0;
  source_sequence = n;
  observed_monotonic_ns = n;
  producer_id = "counter";
  producer_version = "1";
  schema_id = "count";
  schema_version = 1;
  payload = no_members;
  idempotency_key = key;
  trace_id = "front:0";
  confidence = none;
  provenance = [];
  sensitivity_class = SensitivityClass.operational;
  persistence_class = PersistenceClass.routine;
  ttl_ns = some 50;
  wall_utc = none;
}
