-- ===== src/Capture/Controller/Offer.antt =====
-- capture/controller.py: what the worker does with a stream that was opened and with a frame that was
-- read, `_validate_stream` to `_offer_frame`.
pub mod Stuck
pub mod Steps
use viskium.Prelude.{
  ℕ, zero, suc, ◌+◌, ◌-◌, ◌*◌, String, Option, none, some, Bool, true, false, not, ◌&&◌, ◌||◌, ◌==◌,
  leb, ltb, length, [], min, if◌then◌else◌,
}
use Prim.Native.Nat.{◌/◌, ◌%◌}
use Prim.Native.String.{◌++◌}
use text.Mathlib.Text.{◌==◌ as str_eq}
use viskium.Core.Envelope.{FrameEnvelope, TimestampQuality}
use viskium.Capture.Contracts.{CameraState}
use viskium.Capture.Contracts.Frames.{NegotiatedStream, BackendFrame, CaptureRead}
use viskium.Capture.Slot.{OfferStatus, FrameOffer, LatestFrameSlot, offer}
use viskium.Capture.Controller.Counters.{max_int64, Counter}
use viskium.Capture.Controller.State.{Controller}
use viskium.Capture.Controller.World.{
  OpenReply, ReadReply, Env, Config, Deed, World, ok, paused, M, ◌>>=◌, ◌>>◌, pure, pass, locked,
  reading, ask, stop_is_set, stop_wait, count, explain, enter, enter_because, clock_ns, note,
}

pub data StreamResult : Type 0 where
  stopped retry fatal stuck slot_closed : StreamResult

abbrev digit : ℕ → String
digit n = elim n [
  | zero ↦ "0"
  | suc zero ↦ "1"
  | suc (suc zero) ↦ "2"
  | suc (suc (suc zero)) ↦ "3"
  | suc (suc (suc (suc zero))) ↦ "4"
  | suc (suc (suc (suc (suc zero)))) ↦ "5"
  | suc (suc (suc (suc (suc (suc zero))))) ↦ "6"
  | suc (suc (suc (suc (suc (suc (suc zero)))))) ↦ "7"
  | suc (suc (suc (suc (suc (suc (suc (suc zero))))))) ↦ "8"
  | _ ↦ "9"
]

-- `str(n)`, for a number of at most twenty digits.
decimal_from : ℕ → ℕ → String
decimal_from zero n = ""
decimal_from (suc fuel) n =
    let shorter = decimal_from fuel (n / 10) in
    if ltb n 10 then digit n else shorter ++ digit (n % 10)

decimal : ℕ → String
unfolding decimal_from
decimal = decimal_from 20

-- `f"{backend_id}:{epoch}:{sequence}"`
buffer_name : String → ℕ → ℕ → String
unfolding decimal
buffer_name backend_id epoch sequence =
    backend_id ++ (":" ++ (decimal epoch ++ (":" ++ decimal sequence)))

-- `_deadline_ns`.
unfoldable pub deadline_ns : ℕ → ℕ → ℕ
deadline_ns started timeout = min (started + timeout) max_int64

module _ (env : Env) (config : Config) where
  -- `_validate_stream`
  judge_stream : NegotiatedStream → M (Option NegotiatedStream)
  judge_stream s =
      let bytes = s.stride * s.height in
      if ltb config.max_frame_bytes bytes || ltb config.policy.max_frame_bytes bytes
      then (do
        count env Counter.contract_violations
        enter_because env CameraState.failed "negotiated_stream_exceeds_limit"
        pure none)
      else pure (some s)

  refuse_stream : M (Option NegotiatedStream)
  refuse_stream = do
    count env Counter.contract_violations
    enter_because env CameraState.failed "negotiated_stream_invalid"
    pure none

  unfoldable pub validate_stream : OpenReply → M (Option NegotiatedStream)
  unfolding judge_stream refuse_stream
  validate_stream (OpenReply.stream s) = judge_stream s
  validate_stream _ = refuse_stream

  -- `_frame_matches_stream`
  unfoldable pub frame_matches_stream : BackendFrame → NegotiatedStream → Bool
  frame_matches_stream f s =
      f.width == s.width
      && f.height == s.height
      && f.stride == s.stride
      && str_eq f.pixel_format s.pixel_format
      && leb (length f.payload) config.max_frame_bytes
      && leb (length f.payload) config.policy.max_frame_bytes
      && leb f.received_monotonic_ns max_int64

  -- The envelope of a frame. The checks of `FrameEnvelope` let it through, since those of
  -- `BackendFrame` and `_frame_matches_stream` are stricter.
  unfoldable pub envelope : BackendFrame → NegotiatedStream → ℕ → ℕ → FrameEnvelope
  unfolding buffer_name
  envelope f stream epoch sequence = record {
    source_id = config.source_id;
    stream_epoch = epoch;
    sequence = sequence;
    received_monotonic_ns = f.received_monotonic_ns;
    payload = f.payload;
    source_timestamp_ns = none;
    timestamp_quality = TimestampQuality.received;
    width = f.width;
    height = f.height;
    pixel_format = f.pixel_format;
    stride = f.stride;
    buffer_id = buffer_name stream.backend_id epoch sequence;
    generation = sequence;
    quality_flags = [];
  }

  -- `self._frames.offer(envelope)`, under the lock of the slot.
  offer_to_slot : FrameEnvelope → M FrameOffer
  offer_to_slot frame w =
      let w' = pass env w in
      let (slot, answer) = offer frame w'.controller.frames in
      (ok answer, record w' { controller = record w'.controller { frames = slot } })

  judge_offer : OfferStatus → M (Option StreamResult)
  judge_offer OfferStatus.closed = do
    count env Counter.frames_rejected_closed
    explain env "frame_slot_closed"
    locked env (λ c. record c { stop_requested = true })
    pure (some slot_closed)
  judge_offer OfferStatus.replaced = do
    count env Counter.frames_offered
    count env Counter.frames_replaced
    pure none
  judge_offer OfferStatus.accepted = do count env Counter.frames_offered; pure none

  -- `_offer_frame`
  unfoldable pub offer_frame : BackendFrame → NegotiatedStream → ℕ → ℕ → M (Option StreamResult)
  unfolding offer_to_slot judge_offer
  offer_frame f stream epoch sequence =
      if ltb max_int64 sequence
      then (do explain env "frame_sequence_exhausted"; pure (some fatal))
      else do answer ← offer_to_slot (envelope f stream epoch sequence); judge_offer answer.status
