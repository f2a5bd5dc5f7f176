-- ===== src/Capture/Slot/Tests.antt =====
-- capture/latest.py: a slot at concrete frames.
use viskium.Prelude.{ℕ, ◌+◌, ◌≡◌, refl, ◌≢◌, none, some, true, false, List, [], ◌∷◌}
use viskium.Core.Envelope.{FrameEnvelope, TimestampQuality}
use viskium.Capture.Slot.{
  new_slot, offer, pending_count, Call, offers, takes, closes, apply, apply_all, must_wait, Turn,
  returned, waiting, take,
}
use viskium.Capture.Slot.Trace.{
  start, step, run, Subsequence, delivered_in_order, accepted_accounts, nothing_after_close,
}
use viskium.Capture.Slot.Waiting.{settled, Ended, take_returns, take-Ended}

abbrev frame : ℕ → FrameEnvelope
frame n = record {
  source_id = "front";
  stream_epoch = 0;
  sequence = n;
  received_monotonic_ns = n;
  payload = n ∷ [];
  source_timestamp_ns = none;
  timestamp_quality = TimestampQuality.received;
  width = 1;
  height = 1;
  pixel_format = "gray8";
  stride = 1;
  buffer_id = "front:0";
  generation = n;
  quality_flags = [];
}

-- The second frame replaces the first.
abbrev calls : List Call
calls = offers (frame 0) ∷ offers (frame 1) ∷ takes ∷ offers (frame 2) ∷ []

calls_deliver : (run calls start).delivered ≡ frame 1 ∷ []
unfolding run step apply offer
calls_deliver = refl

calls_open : (run calls start).slot.is_closed ≡ false
unfolding run step apply offer
calls_open = refl

delivered_in_order_example : Subsequence (run calls start).delivered (run calls start).offered
delivered_in_order_example = delivered_in_order calls

accepted_accounts_example :
    let s = (run calls start).slot in
    s.offered_count ≡ s.replaced_count + s.taken_count + pending_count s
accepted_accounts_example = accepted_accounts calls calls_open

nothing_after_close_example :
    let t = run calls start in
    let u = run (takes ∷ offers (frame 3) ∷ takes ∷ []) (step closes t) in
    (u.slot.pending ≡ none) × (u.delivered ≡ t.delivered)
nothing_after_close_example = nothing_after_close calls (takes ∷ offers (frame 3) ∷ takes ∷ [])

-- A first turn in which nothing happens, and one in which the clock has passed the deadline.
abbrev turns : List Turn
turns = record { expired = false; meanwhile = [] } ∷ record { expired = true; meanwhile = [] } ∷ []

take_returns_example : (take turns new_slot).1 ≢ waiting
take_returns_example = take_returns turns new_slot refl

-- A frame arrives while `take` waits.
abbrev arrival : List Turn
arrival = record { expired = false; meanwhile = offers (frame 4) ∷ [] } ∷ []

take_arrival :
    (take (record { expired = false; meanwhile = offers (frame 4) ∷ [] } ∷ turns) new_slot).1
    ≡ returned (some (frame 4))
unfolding take apply_all apply offer must_wait
take_arrival = refl

take-Ended_example : Ended (settled arrival new_slot) arrival (take arrival new_slot)
take-Ended_example = take-Ended arrival new_slot
