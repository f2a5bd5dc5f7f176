-- ===== src/Capture/Controller/Offer/Steps.antt =====
-- capture/controller.py: judging a stream and offering a frame leave the camera as it is.
use viskium.Prelude.{ℕ, ltb, refl, ◌∙◌}
use viskium.Capture.Contracts.Frames.{NegotiatedStream, BackendFrame}
use viskium.Core.Envelope.{FrameEnvelope}
use viskium.Capture.Slot.{OfferStatus}
use viskium.Capture.Controller.Counters.{max_int64}
use viskium.Capture.Controller.World.{OpenReply, Env, Config}
use viskium.Capture.Controller.Triples.{Exits, Post, Triple, bind, return, branch}
use viskium.Capture.Controller.Protocol.{View, view, Is}
use viskium.Capture.Controller.Quiet.{view-pass, locked-Is, count-Is, explain-Is, enter_because-Is}
use viskium.Capture.Controller.Offer.{
  judge_stream, refuse_stream, validate_stream, offer_to_slot, judge_offer, offer_frame, envelope,
}

module _ (env : Env) (config : Config) where
  judge_stream-Is :
      {e : Exits} {v : View} (s : NegotiatedStream)
      → Triple e (Is v) (judge_stream env config s) (λ _. Is v)
  unfolding judge_stream
  judge_stream-Is s =
      branch _ (bind (count-Is env _) λ _. bind (enter_because-Is env _ _) λ _. return _ (λ w h. h))
        (return _ (λ w h. h))

  refuse_stream-Is : {e : Exits} {v : View} → Triple e (Is v) (refuse_stream env config) (λ _. Is v)
  unfolding refuse_stream
  refuse_stream-Is =
      bind (count-Is env _) λ _. bind (enter_because-Is env _ _) λ _. return _ (λ w h. h)

  pub validate_stream-Is :
      {e : Exits} {v : View} (r : OpenReply)
      → Triple e (Is v) (validate_stream env config r) (λ _. Is v)
  unfolding validate_stream
  validate_stream-Is (OpenReply.stream s) = judge_stream-Is s
  validate_stream-Is OpenReply.invalid = refuse_stream-Is
  validate_stream-Is OpenReply.deadline_exceeded = refuse_stream-Is
  validate_stream-Is OpenReply.open_error = refuse_stream-Is
  validate_stream-Is OpenReply.capture_error = refuse_stream-Is
  validate_stream-Is OpenReply.unexpected_error = refuse_stream-Is

  offer_to_slot-Is :
      {e : Exits} {v : View} (f : FrameEnvelope)
      → Triple e (Is v) (offer_to_slot env config f) (λ _. Is v)
  unfolding offer_to_slot Post view
  offer_to_slot-Is f = record { holds = λ w h. view-pass env w ∙ h }

  judge_offer-Is :
      {e : Exits} {v : View} (s : OfferStatus)
      → Triple e (Is v) (judge_offer env config s) (λ _. Is v)
  unfolding judge_offer
  judge_offer-Is OfferStatus.closed = bind (count-Is env _) λ _.
      bind (explain-Is env _)
        λ _. bind (locked-Is env _ (λ c. (refl, refl))) λ _. return _ (λ w h. h)
  judge_offer-Is OfferStatus.replaced =
      bind (count-Is env _) λ _. bind (count-Is env _) λ _. return _ (λ w h. h)
  judge_offer-Is OfferStatus.accepted = bind (count-Is env _) λ _. return _ (λ w h. h)

  pub offer_frame-Is :
      {e : Exits} {v : View} (f : BackendFrame) (s : NegotiatedStream) (epoch sequence : ℕ)
      → Triple e (Is v) (offer_frame env config f s epoch sequence) (λ _. Is v)
  unfolding offer_frame
  offer_frame-Is f s epoch sequence =
      branch (ltb max_int64 sequence) (bind (explain-Is env _) λ _. return _ (λ w h. h)) (
        bind (offer_to_slot-Is (envelope env config f s epoch sequence))
          λ a. judge_offer-Is a.status)
