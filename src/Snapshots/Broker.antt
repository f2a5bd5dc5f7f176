-- ===== src/Snapshots/Broker.antt =====
-- snapshots/broker.py: `SnapshotBroker`. Each call, and each turn of the loop of `request`, is one
-- step under the broker's lock.
pub mod Steps
pub mod Delivery
mod Tests
use viskium.Prelude.{
  ℕ, ◌+◌, ◌-◌, ◌^◌, Option, none, some, Bool, true, false, not, ◌&&◌, ◌||◌, List, [], ◌∷◌, ◌++◌,
  ltb, leb, is_some, if◌then◌else◌,
}
use viskium.Core.Envelope.{FrameEnvelope}

abbrev pub max_int64 : ℕ
max_int64 = 2 ^ 63 - 1

pub data RequestOutcome : Type 0 where
  ok busy timeout closed : RequestOutcome

pub data OfferOutcome : Type 0 where
  delivered no_demand closed : OfferOutcome

pub record RequestResult : Type 0 where
  pub outcome : RequestOutcome
  pub frame : Option FrameEnvelope

pub record Broker : Type 0 where
  pub closed : Bool
  pub pending : Bool
  pub frame : Option FrameEnvelope
  pub requests_started : ℕ
  pub requests_busy : ℕ
  pub requests_timed_out : ℕ
  pub requests_closed : ℕ
  pub frames_delivered : ℕ
  pub frames_no_demand : ℕ
  pub offers_closed : ℕ

abbrev pub new_broker : Broker
new_broker = record {
  closed = false;
  pending = false;
  frame = none;
  requests_started = 0;
  requests_busy = 0;
  requests_timed_out = 0;
  requests_closed = 0;
  frames_delivered = 0;
  frames_no_demand = 0;
  offers_closed = 0;
}

-- `_increment`
unfoldable pub increment : ℕ → ℕ
increment n = if ltb n max_int64 then n + 1 else n

abbrev without_frame : RequestOutcome → RequestResult
without_frame outcome = record { outcome = outcome; frame = none }

unfoldable pub hand_over : Option FrameEnvelope → Broker → Broker × RequestResult
unfolding increment
hand_over none b = (
  record b { pending = false; requests_timed_out = increment b.requests_timed_out },
  without_frame RequestOutcome.timeout,
)
hand_over (some frame) b = (
  record b { frame = none; pending = false; frames_delivered = increment b.frames_delivered },
  record { outcome = RequestOutcome.ok; frame = some frame },
)

-- `request` behind its loop.
unfoldable pub request_end : Broker → Broker × RequestResult
unfolding increment hand_over
request_end b =
    if b.closed
    then (
      record b { pending = false; frame = none; requests_closed = increment b.requests_closed },
      without_frame RequestOutcome.closed,
    )
    else hand_over b.frame b

-- The test of the loop of `request`, from which it waits; `expired` is `remaining <= 0.0`.
unfoldable pub must_wait : Bool → Broker → Bool
must_wait expired b = not (is_some b.frame) && not b.closed && not expired

-- A turn of the loop; no result stands for a wait.
unfoldable pub turn : Bool → Broker → Broker × Option RequestResult
unfolding must_wait request_end
turn expired b =
    if must_wait expired b then (b, none) else let (b', result) = request_end b in (b', some result)

-- `request` up to its first wait.
unfoldable pub request : Bool → Broker → Broker × Option RequestResult
unfolding increment turn
request expired b =
    if b.closed
    then (
      record b { requests_closed = increment b.requests_closed },
      some (without_frame RequestOutcome.closed),
    )
    else if b.pending
    then (
      record b { requests_busy = increment b.requests_busy },
      some (without_frame RequestOutcome.busy),
    )
    else turn expired (record b { pending = true; requests_started = increment b.requests_started })

unfoldable pub offer : FrameEnvelope → Broker → Broker × OfferOutcome
unfolding increment
offer frame b =
    if b.closed
    then (record b { offers_closed = increment b.offers_closed }, OfferOutcome.closed)
    else if not b.pending || is_some b.frame
    then (record b { frames_no_demand = increment b.frames_no_demand }, OfferOutcome.no_demand)
    else (record b { frame = some frame }, OfferOutcome.delivered)

unfoldable pub close : Broker → Broker
close b = if b.closed then b else record b { closed = true; pending = false; frame = none }

-- A broker, and whether a thread waits in `request`.
pub record System : Type 0 where
  pub broker : Broker
  pub waits : Bool

abbrev pub boot : System
boot = record { broker = new_broker; waits = false }

pub data Event : Type 0 where
  requests : Bool → Event
  wakes : Bool → Event
  offers : FrameEnvelope → Event
  closes : Event

-- What a step returns to its caller, if it returns.
pub data Output : Type 0 where
  nothing : Output
  result : RequestResult → Output
  offered : OfferOutcome → Output

pub on_request : Broker × Option RequestResult → System → System × Output
on_request (b, none) s = (record { broker = b; waits = true }, nothing)
on_request (b, some r) s = (record s { broker = b }, result r)

pub on_wake : Broker × Option RequestResult → System → System × Output
on_wake (b, none) s = (record s { broker = b }, nothing)
on_wake (b, some r) s = (record { broker = b; waits = false }, result r)

unfoldable pub step : Event → System → System × Output
unfolding on_request on_wake request turn offer close
step (requests expired) s = on_request (request expired s.broker) s
step (wakes expired) s = if s.waits then on_wake (turn expired s.broker) s else (s, nothing)
step (offers frame) s =
    let (b, outcome) = offer frame s.broker in (record s { broker = b }, offered outcome)
step closes s = (record s { broker = close s.broker }, nothing)

unfoldable pub run : List Event → System → System
unfolding step
run [] s = s
run (e ∷ es) s = run es (step e s).0
