-- ===== src/Core/Serialization/Document.antt =====
-- core/serialization.py: the document of an observation.
use viskium.Prelude.{ℕ, String, Option, none, some, false, List, [], ◌∷◌}
use viskium.Core.Envelope.{
  SensitivityClass, PersistenceClass, Json, Items, null, integer, float, string, array, object,
  no_items, item, no_members, member, ObservationEnvelope,
}
use viskium.Core.Serialization.{bounded_canonical_json_bytes, canonical_json_size}

text_or_null : Option String → Json
text_or_null none = null
text_or_null (some s) = string s

integer_or_null : Option ℕ → Json
integer_or_null none = null
integer_or_null (some n) = integer false n

float_or_null : Option String → Json
float_or_null none = null
float_or_null (some text) = float text

strings : List String → Items
strings [] = no_items
strings (s ∷ ss) = item (string s) (strings ss)

sensitivity_text : SensitivityClass → String
sensitivity_text SensitivityClass.public = "public"
sensitivity_text SensitivityClass.operational = "operational"
sensitivity_text SensitivityClass.sensitive = "sensitive"
sensitivity_text SensitivityClass.identifiable = "identifiable"
sensitivity_text SensitivityClass.prohibited = "prohibited"

persistence_text : PersistenceClass → String
persistence_text PersistenceClass.routine = "routine"
persistence_text PersistenceClass.important = "important"
persistence_text PersistenceClass.diagnostic = "diagnostic"
persistence_text PersistenceClass.visual = "visual"

-- `observation_document`
pub observation_document : ObservationEnvelope → Json
unfolding text_or_null integer_or_null float_or_null strings sensitivity_text persistence_text
observation_document o = object (
    member "session_id" (string o.session_id) (
      member "source_id" (string o.source_id) (
        member "stream_epoch" (integer false o.stream_epoch) (
          member "source_sequence" (integer false o.source_sequence) (
            member "observed_monotonic_ns" (integer false o.observed_monotonic_ns) (
              member "producer_id" (string o.producer_id) (
                member "producer_version" (string o.producer_version) (
                  member "schema_id" (string o.schema_id) (
                    member "schema_version" (integer false o.schema_version) (
                      member "payload" (object o.payload) (
                        member "idempotency_key" (string o.idempotency_key) (
                          member "trace_id" (string o.trace_id) (
                            member "confidence" (float_or_null o.confidence) (
                              member "provenance" (array (strings o.provenance)) (
                                member "sensitivity_class"
                                  (string (sensitivity_text o.sensitivity_class))
                                  (member "persistence_class"
                                    (string (persistence_text o.persistence_class))
                                    (member "ttl_ns" (integer_or_null o.ttl_ns) (
                                      member "wall_utc" (text_or_null o.wall_utc)
                                        no_members))))))))))))))))))

-- `bounded_observation_bytes`
unfoldable pub bounded_observation_bytes : ObservationEnvelope → ℕ → Option (List ℕ)
unfolding observation_document bounded_canonical_json_bytes
bounded_observation_bytes o limit = bounded_canonical_json_bytes (observation_document o) limit

-- `observation_size`
unfoldable pub observation_size : ObservationEnvelope → ℕ → Option ℕ
unfolding observation_document canonical_json_size
observation_size o limit = canonical_json_size (observation_document o) limit
