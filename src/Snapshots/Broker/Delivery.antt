-- ===== src/Snapshots/Broker/Delivery.antt =====
-- snapshots/broker.py: which frames reach the callers of `request`.
use mathlib.Core.Path.{subst}
use viskium.Prelude.{
  ◌≤◌, ◌≡◌, refl, sym, ap, ◌∙◌, ◌⊎◌, inl, inr, Option, none, some, Bool, true, false, List, [], ◌∷◌,
  ◌++◌, arith, length, is_some, if_rule, Bool-cases,
}
use viskium.Core.Envelope.{FrameEnvelope}
use viskium.Snapshots.Broker.{
  RequestResult, Broker, System, boot, Event, requests, wakes, offers, closes, hand_over,
  request_end, must_wait, turn, request, offer, close, on_request, step, run, increment, Output,
  nothing, result,
}
use viskium.Snapshots.Broker.Steps.{
  IsTidy, StepKeeps, close-IsTidy, close-closed, delivered_frames, given_out, held, held_nil,
  no_frame, offer-Keeps, on_request-Keeps, request-Keeps, returned_frames, taken_in, tidy_closed,
  wakes-Keeps,
}

-- The frames that were delivered from here on, after those held, are the frames that are returned,
-- and then at most one that is held at the end or was lost to `close`.
pub record Accounts (es : List Event) (s : System) : Type 0 where
  pub rest : List FrameEnvelope
  pub frames : held s.broker.frame ++ delivered_frames es s ≡ returned_frames es s ++ rest
  pub at_most_one : length rest ≤ 1
  pub kept : (run es s).broker.closed ≡ false → rest ≡ held (run es s).broker.frame

append_assoc : (xs ys zs : List FrameEnvelope) → (xs ++ ys) ++ zs ≡ xs ++ (ys ++ zs)
append_assoc [] ys zs = refl
append_assoc (x ∷ xs) ys zs = ap (λ l. x ∷ l) (append_assoc xs ys zs)

-- An event that keeps the frames, before others that account for them.
later-Accounts :
    (e : Event) (es : List Event) (s : System)
    → StepKeeps e s (step e s)
    → Accounts es (step e s).0
    → Accounts (e ∷ es) s
unfolding delivered_frames returned_frames run
later-Accounts e es s k a =
    let x = step e s in
    record {
      rest = a.rest;
      frames =
          sym (append_assoc (held s.broker.frame) (taken_in e x.1) (delivered_frames es x.0))
          ∙ ap (λ l. l ++ delivered_frames es x.0) k.1
          ∙ append_assoc (given_out x.1) (held x.0.broker.frame) (delivered_frames es x.0)
          ∙ ap (λ l. given_out x.1 ++ l) a.frames
          ∙ sym (append_assoc (given_out x.1) (returned_frames es x.0) a.rest);
      at_most_one = a.at_most_one;
      kept = a.kept;
    }

first_nil : (xs ys : List FrameEnvelope) → [] ≡ xs ++ ys → xs ≡ []
first_nil [] ys e = refl
first_nil (x ∷ xs) ys e = absurd (ground arith)

step-Keeps : (e : Event) (s : System) → IsTidy s.broker → (e ≡ closes) ⊎ StepKeeps e s (step e s)
unfolding step
step-Keeps (requests expired) s h =
    inr (on_request-Keeps expired (request expired s.broker) s (request-Keeps expired s.broker h))
step-Keeps (wakes expired) s h = inr (wakes-Keeps expired s h)
step-Keeps (offers frame) s h = inr (offer-Keeps frame s.broker h)
step-Keeps closes s h = inl refl

closed_takes : (e : Event) (s : System) → s.broker.closed ≡ true → taken_in e (step e s).1 ≡ []
unfolding step offer
closed_takes (requests expired) s c = refl
closed_takes (wakes expired) s c = refl
closed_takes (offers frame) s c = rw c refl
closed_takes closes s c = refl

-- A closed broker stays closed, takes no frame in and gives none out.
record IsSilent (es : List Event) (s : System) : Type 0 where
  delivered : delivered_frames es s ≡ []
  returned : returned_frames es s ≡ []
  closed : (run es s).broker.closed ≡ true

later-IsSilent :
    (e : Event) (es : List Event) (s : System)
    → taken_in e (step e s).1 ≡ []
    → given_out (step e s).1 ≡ []
    → IsSilent es (step e s).0
    → IsSilent (e ∷ es) s
unfolding delivered_frames returned_frames run
later-IsSilent e es s t g h = record {
  delivered = ap (λ l. l ++ delivered_frames es (step e s).0) t ∙ h.delivered;
  returned = ap (λ l. l ++ returned_frames es (step e s).0) g ∙ h.returned;
  closed = h.closed;
}

closes_gives : (s : System) → given_out (step closes s).1 ≡ []
unfolding step
closes_gives s = refl

closes-IsTidy : (s : System) → IsTidy s.broker → IsTidy (step closes s).0.broker
unfolding step
closes-IsTidy s h = close-IsTidy s.broker h

closes_shut : (s : System) → (step closes s).0.broker.closed ≡ true
unfolding step
closes_shut s = close-closed s.broker

closed-IsSilent :
    (es : List Event) (s : System) → IsTidy s.broker → s.broker.closed ≡ true → IsSilent es s
unfolding delivered_frames returned_frames run
closed-IsSilent [] s h c = record { delivered = refl; returned = refl; closed = c }
closed-IsSilent (e ∷ es) s h c =
    let x = step e s in
    elim (step-Keeps e s h) [
      | inl q ↦
          subst (λ y. IsSilent (y ∷ es) s) (sym q)
            (later-IsSilent closes es s (closed_takes closes s c) (closes_gives s)
              (closed-IsSilent es (step closes s).0 (closes-IsTidy s h) (closes_shut s)))
      | inr k ↦
          later-IsSilent e es s (closed_takes e s c)
            (first_nil (given_out x.1) (held x.0.broker.frame) (
              sym (ap held (tidy_closed s.broker s.broker.frame refl h c))
              ∙ sym (held_nil s.broker.frame)
              ∙ ap (λ l. held s.broker.frame ++ l) (sym (closed_takes e s c))
              ∙ k.1))
            (closed-IsSilent es x.0 k.0 (k.2 ∙ c))
    ]

held_one : (f : Option FrameEnvelope) → length (held f) ≤ 1
held_one none = omega arith
held_one (some frame) = omega arith

closes-Accounts : (es : List Event) (s : System) → IsTidy s.broker → Accounts (closes ∷ es) s
unfolding delivered_frames returned_frames run step
closes-Accounts es s h =
    let t : System = record s { broker = close s.broker } in
    let k = closed-IsSilent es t (closes-IsTidy s h) (closes_shut s) in
    record {
      rest = held s.broker.frame;
      frames =
          ap (λ l. held s.broker.frame ++ l) k.delivered
          ∙ held_nil s.broker.frame
          ∙ ap (λ l. l ++ held s.broker.frame) (sym k.returned);
      at_most_one = held_one s.broker.frame;
      kept = λ open_. absurd (ground (arith, k.closed, open_));
    }

run-Accounts : (es : List Event) (s : System) → IsTidy s.broker → Accounts es s
unfolding delivered_frames returned_frames run
run-Accounts [] s h = record {
  rest = held s.broker.frame;
  frames = held_nil s.broker.frame;
  at_most_one = held_one s.broker.frame;
  kept = λ _. refl;
}
run-Accounts (e ∷ es) s h = elim (step-Keeps e s h) [
  | inl q ↦ subst (λ y. Accounts (y ∷ es) s) (sym q) (closes-Accounts es s h)
  | inr k ↦ later-Accounts e es s k (run-Accounts es (step e s).0 k.0)
]

boot-IsTidy : IsTidy boot.broker
boot-IsTidy = record { wanted = λ y. absurd (ground arith); open_ = λ y. absurd (ground arith) }

-- Over any calls of request, offer and close, from a new broker: of the frames that offers delivered,
-- in their order, requests returned each once, except for at most one, which the broker holds at the
-- end if it is not closed.
pub delivered_once :
    (es : List Event)
    → (rest : List FrameEnvelope) × (delivered_frames es boot ≡ returned_frames es boot ++ rest)
      × (length rest ≤ 1)
      × ((run es boot).broker.closed ≡ false → rest ≡ held (run es boot).broker.frame)
delivered_once es =
    let a = run-Accounts es boot boot-IsTidy in (a.rest, a.frames, a.at_most_one, a.kept)

-- Every reachable broker is tidy.
run-IsTidy : (es : List Event) (s : System) → IsTidy s.broker → IsTidy (run es s).broker
unfolding run
run-IsTidy [] s h = h
run-IsTidy (e ∷ es) s h = elim (step-Keeps e s h) [
  | inl q ↦
      subst (λ y. IsTidy (run es (step y s).0).broker) (sym q)
        (run-IsTidy es (step closes s).0 (closes-IsTidy s h))
  | inr k ↦ run-IsTidy es (step e s).0 k.0
]

unwanted : (b : Broker) → IsTidy b → b.pending ≡ false → is_some b.frame ≡ false
unwanted b h e = elim (Bool-cases (is_some b.frame)) [
  | inl y ↦ absurd (ground (arith, h.wanted y))
  | inr n ↦ n
]

-- How the first critical section of a request ends: it waits and no frame is held, or it returns
-- without a frame.
abbrev Begins : Broker × Option RequestResult → Type 0
Begins x =
    ((x.1 ≡ none) × (x.0.frame ≡ none)) ⊎ ((r : RequestResult) × (x.1 ≡ some r) × (r.frame ≡ none))

hand_over_nothing :
    (b : Broker) (f : Option FrameEnvelope) → f ≡ none → (hand_over f b).1.frame ≡ none
unfolding hand_over
hand_over_nothing b none e = refl
hand_over_nothing b (some frame) e = absurd (ground arith)

turn-Begins : (expired : Bool) (b : Broker) → b.frame ≡ none → Begins (turn expired b)
unfolding turn request_end
turn-Begins expired b e =
    if_rule Begins (must_wait expired b) (λ _. inl (refl, e))
      (λ _.
        if_rule (λ (x : Broker × RequestResult). Begins (x.0, some x.1)) b.closed
          (λ _. inr (_, refl, refl)) (λ _. inr (_, refl, hand_over_nothing b b.frame e)))

request-Begins : (expired : Bool) (b : Broker) → IsTidy b → Begins (request expired b)
unfolding request
request-Begins expired b h =
    if_rule Begins b.closed (λ _. inr (_, refl, refl))
      (λ c.
        if_rule Begins b.pending (λ _. inr (_, refl, refl))
          (λ free.
            turn-Begins expired
              (record b { pending = true; requests_started = increment b.requests_started })
              (no_frame b.frame (unwanted b h free))))

-- The step of a request, and the frames of the events behind it: the request waits, and what is
-- delivered from here on is what is returned and at most one frame, or it returns without a frame.
abbrev pub GetsLater : List Event → System × Output → Type 0
GetsLater later (s, output) =
    ((output ≡ nothing)
      × ((rest : List FrameEnvelope) × (delivered_frames later s ≡ returned_frames later s ++ rest)
          × (length rest ≤ 1)))
    ⊎ ((r : RequestResult) × (output ≡ result r) × (r.frame ≡ none))

on_request-GetsLater :
    (later : List Event) (b : Broker) (r : Option RequestResult) (s : System)
    → IsTidy b
    → Begins (b, r)
    → GetsLater later (on_request (b, r) s)
unfolding on_request
on_request-GetsLater later b none s h (inl (e, empty)) =
    let t : System = record { broker = b; waits = true } in
    let a = run-Accounts later t h in
    inl (
      refl,
      (a.rest, ap (λ f. held f ++ delivered_frames later t) (sym empty) ∙ a.frames, a.at_most_one),
    )
on_request-GetsLater later b none s h (inr (r, e, f)) = absurd (ground arith)
on_request-GetsLater later b (some r) s h (inl (e, empty)) = absurd (ground arith)
on_request-GetsLater later b (some r) s h (inr (q, e, f)) = inr (r, refl, ground (arith, e, f))

-- A request that begins after any calls either returns at once, without a frame, or waits; from then
-- on, over any later calls, the frames that requests return are, in order, those that later offers
-- delivered, but for at most one of these; so what it returns was delivered after it began.
pub request-GetsLater :
    (es later : List Event) (expired : Bool)
    → GetsLater later (step (requests expired) (run es boot))
unfolding step
request-GetsLater es later expired =
    let s = run es boot in
    let h = run-IsTidy es boot boot-IsTidy in
    let x = request expired s.broker in
    on_request-GetsLater later x.0 x.1 s (request-Keeps expired s.broker h).tidy
      (request-Begins expired s.broker h)
