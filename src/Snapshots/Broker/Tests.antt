-- ===== src/Snapshots/Broker/Tests.antt =====
-- snapshots/broker.py: a broker at concrete frames.
use viskium.Prelude.{ℕ, ◌≡◌, ◌≤◌, refl, none, true, false, List, [], ◌∷◌, ◌++◌, length}
use viskium.Core.Envelope.{FrameEnvelope, TimestampQuality}
use viskium.Snapshots.Broker.{boot, Event, requests, wakes, offers, closes, step, run}
use viskium.Snapshots.Broker.Delivery.{delivered_once, GetsLater, request-GetsLater}
use viskium.Snapshots.Broker.Steps.{held, delivered_frames, returned_frames}

abbrev frame : ℕ → FrameEnvelope
frame n = record {
  source_id = "front";
  stream_epoch = 0;
  sequence = n;
  received_monotonic_ns = n;
  payload = 7 ∷ [];
  source_timestamp_ns = none;
  timestamp_quality = TimestampQuality.received;
  width = 1;
  height = 1;
  pixel_format = "gray8";
  stride = 1;
  buffer_id = "b";
  generation = 0;
  quality_flags = [];
}

-- Frames 1 and 3 find no demand, and frame 5 is dropped by `close`.
abbrev events : List Event
events =
    offers (frame 1)
    ∷ requests false
    ∷ requests false
    ∷ wakes false
    ∷ offers (frame 2)
    ∷ offers (frame 3)
    ∷ wakes true
    ∷ requests false
    ∷ offers (frame 5)
    ∷ closes
    ∷ wakes false
    ∷ offers (frame 6)
    ∷ []

returned_lem : returned_frames events boot ≡ frame 2 ∷ []
unfolding returned_frames step
returned_lem = refl

delivered_lem : delivered_frames events boot ≡ frame 2 ∷ frame 5 ∷ []
unfolding delivered_frames step
delivered_lem = refl

delivered_once_example :
    (rest : List FrameEnvelope) × (delivered_frames events boot
      ≡ returned_frames events boot ++ rest)
    × (length rest ≤ 1)
    × ((run events boot).broker.closed ≡ false → rest ≡ held (run events boot).broker.frame)
delivered_once_example = delivered_once events

-- Frame 1 was offered before the request, frame 2 while it waits.
abbrev early : List Event
early = offers (frame 1) ∷ []

abbrev late : List Event
late = offers (frame 2) ∷ wakes false ∷ []

late_lem : returned_frames late (step (requests false) (run early boot)).0 ≡ frame 2 ∷ []
unfolding returned_frames step run
late_lem = refl

request-GetsLater_example : GetsLater late (step (requests false) (run early boot))
request-GetsLater_example = request-GetsLater early late false
