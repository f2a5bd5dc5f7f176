-- ===== src/Core/Envelope.antt =====
-- The fields of `FrameEnvelope` and `ObservationEnvelope` of core/contracts.py. Integers are those
-- that `__post_init__` lets through, so they are not negative; a payload's JSON values are below.
use viskium.Prelude.{ℕ, String, Option, Bool, List}

pub data TimestampQuality : Type 0 where
  synthetic source received : TimestampQuality

pub data SensitivityClass : Type 0 where
  public operational sensitive identifiable prohibited : SensitivityClass

pub data PersistenceClass : Type 0 where
  routine important diagnostic visual : PersistenceClass

pub record FrameEnvelope : Type 0 where
  pub source_id : String
  pub stream_epoch : ℕ
  pub sequence : ℕ
  pub received_monotonic_ns : ℕ
  pub payload : List ℕ
  pub source_timestamp_ns : Option ℕ
  pub timestamp_quality : TimestampQuality
  pub width : ℕ
  pub height : ℕ
  pub pixel_format : String
  pub stride : ℕ
  pub buffer_id : String
  pub generation : ℕ
  pub quality_flags : List String

-- A float is known by its JSON text, and an integer by its sign and its size.
mutual
  pub data Json : Type 0 where
    null : Json
    boolean : Bool → Json
    integer : Bool → ℕ → Json
    float : String → Json
    string : String → Json
    array : Items → Json
    object : Members → Json

  pub data Items : Type 0 where
    no_items : Items
    item : Json → Items → Items

  pub data Members : Type 0 where
    no_members : Members
    member : String → Json → Members → Members

pub record ObservationEnvelope : Type 0 where
  pub session_id : String
  pub source_id : String
  pub stream_epoch : ℕ
  pub source_sequence : ℕ
  pub observed_monotonic_ns : ℕ
  pub producer_id : String
  pub producer_version : String
  pub schema_id : String
  pub schema_version : ℕ
  pub payload : Members
  pub idempotency_key : String
  pub trace_id : String
  pub confidence : Option String
  pub provenance : List String
  pub sensitivity_class : SensitivityClass
  pub persistence_class : PersistenceClass
  pub ttl_ns : Option ℕ
  pub wall_utc : Option String
