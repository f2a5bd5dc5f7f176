-- ===== src/Observations/Latest.antt =====
-- observations/latest.py: the types of the module, and `LatestObservationSlot`. Each critical section
-- is one step, and what other threads do while `read` waits is a list of calls.
pub mod Arguments
pub mod Read
pub mod Held
mod Tests
use viskium.Prelude.{
  ℕ, ◌+◌, Option, none, some, Bool, true, false, not, ◌||◌, List, [], ◌∷◌, is_some, if◌then◌else◌,
}
use viskium.Core.Value.{Result, raise, type_error, value_error}
use viskium.Core.Envelope.{ObservationEnvelope}

pub data OfferOutcome : Type 0 where
  accepted replaced closed : OfferOutcome

pub data ReadOutcome : Type 0 where
  ok empty stale schema_mismatch timeout closed future_timestamp : ReadOutcome

pub record LatestObservationRead : Type 0 where
  pub outcome : ReadOutcome
  pub observation : Option ObservationEnvelope
  pub age_ns : Option ℕ

-- The fields that `__init__` sets, without the condition and the clock.
pub record LatestObservationSlot : Type 0 where
  pub latest : Option ObservationEnvelope
  pub is_closed : Bool
  pub offers_accepted : ℕ
  pub offers_replaced : ℕ
  pub offers_closed : ℕ
  pub reads_ok : ℕ
  pub reads_empty : ℕ
  pub reads_stale : ℕ
  pub reads_schema_mismatch : ℕ
  pub reads_timeout : ℕ
  pub reads_closed : ℕ
  pub reads_future_timestamp : ℕ

abbrev pub new_slot : LatestObservationSlot
new_slot = record {
  latest = none;
  is_closed = false;
  offers_accepted = 0;
  offers_replaced = 0;
  offers_closed = 0;
  reads_ok = 0;
  reads_empty = 0;
  reads_stale = 0;
  reads_schema_mismatch = 0;
  reads_timeout = 0;
  reads_closed = 0;
  reads_future_timestamp = 0;
}

-- `offer`
unfoldable pub offer :
    ObservationEnvelope → LatestObservationSlot → LatestObservationSlot × OfferOutcome
offer o s =
    if s.is_closed
    then (record s { offers_closed = s.offers_closed + 1 }, OfferOutcome.closed)
    else if is_some s.latest
    then (
      record s { latest = some o; offers_replaced = s.offers_replaced + 1 },
      OfferOutcome.replaced,
    )
    else (
      record s { latest = some o; offers_accepted = s.offers_accepted + 1 },
      OfferOutcome.accepted,
    )

-- `close`
unfoldable pub close : LatestObservationSlot → LatestObservationSlot
close s = if s.is_closed then s else record s { is_closed = true; latest = none }

-- The counter that `_finish_read` adds to.
unfoldable pub count_read : ReadOutcome → LatestObservationSlot → LatestObservationSlot
count_read ReadOutcome.ok s = record s { reads_ok = s.reads_ok + 1 }
count_read ReadOutcome.empty s = record s { reads_empty = s.reads_empty + 1 }
count_read ReadOutcome.stale s = record s { reads_stale = s.reads_stale + 1 }
count_read ReadOutcome.schema_mismatch s = record s {
  reads_schema_mismatch = s.reads_schema_mismatch + 1;
}
count_read ReadOutcome.timeout s = record s { reads_timeout = s.reads_timeout + 1 }
count_read ReadOutcome.closed s = record s { reads_closed = s.reads_closed + 1 }
count_read ReadOutcome.future_timestamp s = record s {
  reads_future_timestamp = s.reads_future_timestamp + 1;
}

-- What another thread does under the lock: an offer, a close, or a read that ends so.
pub data Call : Type 0 where
  offers : ObservationEnvelope → Call
  closes : Call
  reads : ReadOutcome → Call

unfoldable pub apply : Call → LatestObservationSlot → LatestObservationSlot
unfolding offer close count_read
apply (offers o) s = (offer o s).0
apply closes s = close s
apply (reads r) s = count_read r s

unfoldable pub apply_all : List Call → LatestObservationSlot → LatestObservationSlot
unfolding apply
apply_all [] s = s
apply_all (c ∷ cs) s = apply_all cs (apply c s)

-- `LatestObservationRead.__post_init__`, for an age that is not negative: an `ok` read has an
-- observation and an age, a stale one and one of another schema an age alone, and others neither.
unfoldable pub make_read : LatestObservationRead → Result LatestObservationRead
make_read r = elim r.outcome [
  | ReadOutcome.ok ↦
      if not (is_some r.observation)
      then raise type_error
      else if is_some r.age_ns
      then Result.ok r
      else raise value_error
  | ReadOutcome.stale ↦
      if is_some r.observation
      then raise value_error
      else if is_some r.age_ns
      then Result.ok r
      else raise value_error
  | ReadOutcome.schema_mismatch ↦
      if is_some r.observation
      then raise value_error
      else if is_some r.age_ns
      then Result.ok r
      else raise value_error
  | _ ↦ if is_some r.observation || is_some r.age_ns then raise value_error else Result.ok r
]
