-- ===== src/Capture/Controller/Offer/Stuck.antt =====
-- capture/controller.py: judging a stream and offering a frame leave STUCK as it is.
use viskium.Prelude.{ℕ}
use viskium.Core.Envelope.{FrameEnvelope}
use viskium.Capture.Contracts.Frames.{NegotiatedStream, BackendFrame}
use viskium.Capture.Slot.{OfferStatus, offer}
use viskium.Capture.Controller.World.{OpenReply, Env, Config, World, pass}
use viskium.Capture.Controller.Stuck.{
  Lasts, Calm, bind, return, branch, locked-Calm, count-Calm, explain-Calm, enter_because-Calm,
}
use viskium.Capture.Controller.Offer.{
  judge_stream, refuse_stream, validate_stream, envelope, offer_to_slot, judge_offer, offer_frame,
}

module _ {env : Env} (config : Config) {K : World → Type 0} (l : Lasts env K) where
  judge_stream-Calm : (s : NegotiatedStream) → Calm K (judge_stream env config s)
  unfolding judge_stream
  judge_stream-Calm s =
      branch _ (bind (count-Calm l _) λ _. bind (enter_because-Calm l _ _) λ _. return) return

  refuse_stream-Calm : Calm K (refuse_stream env config)
  unfolding refuse_stream
  refuse_stream-Calm = bind (count-Calm l _) λ _. bind (enter_because-Calm l _ _) λ _. return

  pub validate_stream-Calm : (r : OpenReply) → Calm K (validate_stream env config r)
  unfolding validate_stream
  validate_stream-Calm (OpenReply.stream s) = judge_stream-Calm s
  validate_stream-Calm _ = refuse_stream-Calm

  offer_to_slot-Calm : (f : FrameEnvelope) → Calm K (offer_to_slot env config f)
  unfolding offer_to_slot
  offer_to_slot-Calm f = record {
    keeps = λ w h.
        l.writes (λ c. record c { frames = (offer f (pass env w).controller.frames).0 })
          (λ c stuck. stuck) (pass env w) (l.passes w h);
  }

  judge_offer-Calm : (s : OfferStatus) → Calm K (judge_offer env config s)
  unfolding judge_offer
  judge_offer-Calm OfferStatus.closed =
      bind (count-Calm l _)
        λ _. bind (explain-Calm l _) λ _. bind (locked-Calm l _ (λ c h. h)) λ _. return
  judge_offer-Calm OfferStatus.replaced =
      bind (count-Calm l _) λ _. bind (count-Calm l _) λ _. return
  judge_offer-Calm OfferStatus.accepted = bind (count-Calm l _) λ _. return

  pub offer_frame-Calm :
      (f : BackendFrame) (stream : NegotiatedStream) (epoch sequence : ℕ)
      → Calm K (offer_frame env config f stream epoch sequence)
  unfolding offer_frame
  offer_frame-Calm f stream epoch sequence = branch _ (bind (explain-Calm l _) λ _. return) (
      bind (offer_to_slot-Calm (envelope env config f stream epoch sequence))
        λ answer. judge_offer-Calm answer.status)
