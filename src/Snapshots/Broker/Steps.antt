-- ===== src/Snapshots/Broker/Steps.antt =====
-- snapshots/broker.py: what a step does to the frame that the broker holds.
use viskium.Prelude.{
  ◌≡◌, refl, ap, ◌∙◌, Option, none, some, Bool, true, false, not, ◌||◌, List, [], ◌∷◌, ◌++◌, arith,
  is_some, if_rule,
}
use viskium.Core.Envelope.{FrameEnvelope}
use viskium.Snapshots.Broker.{
  OfferOutcome, RequestResult, Broker, System, Event, requests, wakes, offers, Output, result,
  offered, hand_over, request_end, must_wait, turn, request, offer, close, on_request, on_wake,
  step, increment,
}

abbrev pub held : Option FrameEnvelope → List FrameEnvelope
held none = []
held (some frame) = frame ∷ []

-- The frame of an offer that was answered `delivered`.
abbrev pub taken_in : Event → Output → List FrameEnvelope
taken_in (offers frame) (offered OfferOutcome.delivered) = frame ∷ []
taken_in _ _ = []

-- The frame that a caller of `request` gets.
abbrev pub given_out : Output → List FrameEnvelope
given_out (result r) = held r.frame
given_out _ = []

unfoldable pub delivered_frames : List Event → System → List FrameEnvelope
unfolding step
delivered_frames [] s = []
delivered_frames (e ∷ es) s =
    let (s', output) = step e s in taken_in e output ++ delivered_frames es s'

unfoldable pub returned_frames : List Event → System → List FrameEnvelope
unfolding step
returned_frames [] s = []
returned_frames (e ∷ es) s =
    let (s', output) = step e s in given_out output ++ returned_frames es s'

-- A frame is held for a pending request only, and a closed broker has neither.
pub record IsTidy (b : Broker) : Type 0 where
  pub wanted : is_some b.frame ≡ true → b.pending ≡ true
  pub open_ : b.pending ≡ true → b.closed ≡ false

abbrev pub given : Option RequestResult → List FrameEnvelope
given none = []
given (some r) = held r.frame

-- What is held is given out or held on.
pub record Keeps (b : Broker) (x : Broker × Option RequestResult) : Type 0 where
  pub tidy : IsTidy x.0
  pub frames : held b.frame ≡ given x.1 ++ held x.0.frame
  pub closed : x.0.closed ≡ b.closed

hand_over-Keeps :
    (b : Broker) (f : Option FrameEnvelope)
    → IsTidy b
    → b.closed ≡ false
    → b.frame ≡ f
    → let x = hand_over f b in Keeps b (x.0, some x.1)
unfolding hand_over
hand_over-Keeps b none h c e = record {
  tidy = record { wanted = λ y. absurd (ground arith); open_ = λ y. absurd (ground arith) };
  frames = refl;
  closed = refl;
}
hand_over-Keeps b (some frame) h c e = record {
  tidy = record { wanted = λ y. absurd (ground arith); open_ = λ y. absurd (ground arith) };
  frames = ap held e;
  closed = refl;
}

pub tidy_closed :
    (b : Broker) (f : Option FrameEnvelope) → b.frame ≡ f → IsTidy b → b.closed ≡ true → f ≡ none
tidy_closed b none e h c = refl
tidy_closed b (some frame) e h c = absurd (ground (arith, h.wanted, h.open_))

request_end-Keeps : (b : Broker) → IsTidy b → let x = request_end b in Keeps b (x.0, some x.1)
unfolding request_end
request_end-Keeps b h =
    if_rule (λ (x : Broker × RequestResult). Keeps b (x.0, some x.1)) b.closed
      (λ c. record {
        tidy = record { wanted = λ y. absurd (ground arith); open_ = λ y. absurd (ground arith) };
        frames = ap held (tidy_closed b b.frame refl h c);
        closed = refl;
      })
      (λ c. hand_over-Keeps b b.frame h c refl)

turn-Keeps : (expired : Bool) (b : Broker) → IsTidy b → Keeps b (turn expired b)
unfolding turn
turn-Keeps expired b h =
    if_rule (Keeps b) (must_wait expired b) (λ _. record { tidy = h; frames = refl; closed = refl })
      (λ _. request_end-Keeps b h)

pub request-Keeps : (expired : Bool) (b : Broker) → IsTidy b → Keeps b (request expired b)
unfolding request
request-Keeps expired b h =
    if_rule (Keeps b) b.closed
      (λ _. record {
        tidy = record { wanted = h.wanted; open_ = h.open_ };
        frames = refl;
        closed = refl;
      })
      (λ c.
        if_rule (Keeps b) b.pending
          (λ _. record {
            tidy = record { wanted = h.wanted; open_ = h.open_ };
            frames = refl;
            closed = refl;
          })
          (λ _.
            let k =
              turn-Keeps expired
                (record b { pending = true; requests_started = increment b.requests_started })
                (record { wanted = λ _. refl; open_ = λ _. c }) in
            record { tidy = k.tidy; frames = k.frames; closed = k.closed }))

pub held_nil : (f : Option FrameEnvelope) → held f ++ [] ≡ held f
held_nil none = refl
held_nil (some frame) = refl

pub no_frame : (f : Option FrameEnvelope) → is_some f ≡ false → f ≡ none
no_frame none e = refl
no_frame (some frame) e = absurd (ground arith)

abbrev OfferKeeps : FrameEnvelope → Broker → Broker × OfferOutcome → Type 0
OfferKeeps frame b x =
    IsTidy x.0
    × (held b.frame ++ taken_in (offers frame) (offered x.1) ≡ held x.0.frame)
    × (x.0.closed ≡ b.closed)

-- A frame that an offer delivers is held after it, and was wanted.
pub offer-Keeps :
    (frame : FrameEnvelope) (b : Broker) → IsTidy b → OfferKeeps frame b (offer frame b)
unfolding offer
offer-Keeps frame b h =
    if_rule (OfferKeeps frame b) b.closed
      (λ _. (record { wanted = h.wanted; open_ = h.open_ }, held_nil b.frame, refl))
      (λ c.
        if_rule (OfferKeeps frame b) (not b.pending || is_some b.frame)
          (λ _. (record { wanted = h.wanted; open_ = h.open_ }, held_nil b.frame, refl))
          (λ e. (
            record { wanted = λ _. ground (arith, e); open_ = λ _. c },
            ap (λ f. held f ++ frame ∷ []) (no_frame b.frame (ground (arith, e))),
            refl,
          )))

pub close-IsTidy : (b : Broker) → IsTidy b → IsTidy (close b)
unfolding close
close-IsTidy b h =
    if_rule IsTidy b.closed (λ _. h)
      (λ _. record { wanted = λ y. absurd (ground arith); open_ = λ y. absurd (ground arith) })

pub close-closed : (b : Broker) → (close b).closed ≡ true
unfolding close
close-closed b = if_rule (λ (x : Broker). x.closed ≡ true) b.closed (λ e. e) (λ _. refl)

-- What a step that does not close does to the frames.
abbrev pub StepKeeps : Event → System → System × Output → Type 0
StepKeeps e s x =
    IsTidy x.0.broker
    × (held s.broker.frame ++ taken_in e x.1 ≡ given_out x.1 ++ held x.0.broker.frame)
    × (x.0.broker.closed ≡ s.broker.closed)

pub on_request-Keeps :
    (expired : Bool) (x : Broker × Option RequestResult) (s : System)
    → Keeps s.broker x
    → StepKeeps (requests expired) s (on_request x s)
unfolding on_request
on_request-Keeps expired (b, none) s k = (k.tidy, held_nil s.broker.frame ∙ k.frames, k.closed)
on_request-Keeps expired (b, some r) s k = (k.tidy, held_nil s.broker.frame ∙ k.frames, k.closed)

on_wake-Keeps :
    (expired : Bool) (x : Broker × Option RequestResult) (s : System)
    → Keeps s.broker x
    → StepKeeps (wakes expired) s (on_wake x s)
unfolding on_wake
on_wake-Keeps expired (b, none) s k = (k.tidy, held_nil s.broker.frame ∙ k.frames, k.closed)
on_wake-Keeps expired (b, some r) s k = (k.tidy, held_nil s.broker.frame ∙ k.frames, k.closed)

pub wakes-Keeps :
    (expired : Bool) (s : System)
    → IsTidy s.broker
    → StepKeeps (wakes expired) s (step (wakes expired) s)
unfolding step
wakes-Keeps expired s h =
    if_rule (StepKeeps (wakes expired) s) s.waits
      (λ _. on_wake-Keeps expired (turn expired s.broker) s (turn-Keeps expired s.broker h))
      (λ _. (h, held_nil s.broker.frame, refl))
