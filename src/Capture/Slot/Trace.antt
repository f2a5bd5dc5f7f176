-- ===== src/Capture/Slot/Trace.antt =====
-- capture/latest.py: the slot over any sequence of calls.
use mathlib.Core.Path.{subst}
use viskium.Prelude.{
  ◌+◌, ◌≤◌, ◌≡◌, refl, Option, none, some, Bool, true, false, List, [], ◌∷◌, ◌++◌, ◌∙◌, arith,
}
use viskium.Core.Envelope.{FrameEnvelope}
use viskium.Capture.Slot.{
  LatestFrameSlot, new_slot, offer, close, pending_count, Call, offers, takes, closes, apply,
}

-- A slot with the frames that were offered to it and those that its takers got, newest first.
pub record Trace : Type 0 where
  pub slot : LatestFrameSlot
  pub offered : List FrameEnvelope
  pub delivered : List FrameEnvelope

abbrev pub start : Trace
start = record { slot = new_slot; offered = []; delivered = [] }

abbrev to_list : Option FrameEnvelope → List FrameEnvelope
to_list none = []
to_list (some f) = f ∷ []

abbrev offered_by : Call → List FrameEnvelope
offered_by (offers f) = f ∷ []
offered_by _ = []

unfoldable pub step : Call → Trace → Trace
step c t =
    let (s, got) = apply c t.slot in
    record { slot = s; offered = offered_by c ++ t.offered; delivered = to_list got ++ t.delivered }

unfoldable pub run : List Call → Trace → Trace
unfolding step
run [] t = t
run (c ∷ cs) t = run cs (step c t)

-- The first list is the second with some entries left out.
pub data Subsequence {A : Type 0} : List A → List A → Type 0 where
  done : Subsequence [] []
  keep : (x : A) {xs ys : List A} → Subsequence xs ys → Subsequence (x ∷ xs) (x ∷ ys)
  skip : (y : A) {xs ys : List A} → Subsequence xs ys → Subsequence xs (y ∷ ys)

Subsequence-tail :
    {A : Type 0} (x : A) {xs ys zs : List A} → zs ≡ x ∷ xs → Subsequence zs ys → Subsequence xs ys
Subsequence-tail x e done = cc
Subsequence-tail x {xs} e (keep y {xs = us} {ys = vs} s) =
    let p : us ≡ xs = cc in skip y (subst (λ l. Subsequence l vs) p s)
Subsequence-tail x e (skip y s) = skip y (Subsequence-tail x e s)

-- What the slot keeps true of its counters and of the frames that pass through it.
pub record Inv (t : Trace) : Type 0 where
  pub closed_empty : t.slot.is_closed ≡ true → t.slot.pending ≡ none
  pub open_count :
      t.slot.is_closed ≡ false
      → t.slot.offered_count ≡ t.slot.replaced_count + t.slot.taken_count + pending_count t.slot
  pub low : t.slot.replaced_count + t.slot.taken_count ≤ t.slot.offered_count
  pub high : t.slot.offered_count ≤ t.slot.replaced_count + t.slot.taken_count + 1
  pub order : Subsequence (to_list t.slot.pending ++ t.delivered) t.offered

start-Inv : Inv start
unfolding pending_count
start-Inv = record {
  closed_empty = λ _. refl;
  open_count = λ _. omega arith;
  low = omega arith;
  high = omega arith;
  order = done;
}

-- The frames that pass through a call, by what the slot held.
order-step :
    (c : Call) (t : Trace) (held : Option FrameEnvelope) (shut : Bool)
    → t.slot.pending ≡ held
    → t.slot.is_closed ≡ shut
    → Subsequence (to_list held ++ t.delivered) t.offered
    → Subsequence (to_list (step c t).slot.pending ++ (step c t).delivered) (step c t).offered
unfolding step apply offer
order-step (offers f) t none true p q h = rw q (rw p (skip f h))
order-step (offers f) t (some old) true p q h = rw q (rw p (skip f h))
order-step (offers f) t none false p q h = rw q (rw p (keep f h))
order-step (offers f) t (some old) false p q h = rw q (rw p (keep f (Subsequence-tail old refl h)))
order-step takes t none shut p q h = rw p h
order-step takes t (some f) shut p q h = rw p h
order-step closes t none shut p q h = h
order-step closes t (some f) shut p q h = Subsequence-tail f refl h

step-Inv : (c : Call) (t : Trace) → Inv t → Inv (step c t)
unfolding step apply offer close pending_count
step-Inv (offers f) t h = record {
  closed_empty = ground arith;
  open_count = ground arith;
  low = ground arith;
  high = ground arith;
  order = order-step (offers f) t t.slot.pending t.slot.is_closed refl refl h.order;
}
step-Inv takes t h = record {
  closed_empty = ground arith;
  open_count = ground arith;
  low = ground arith;
  high = ground arith;
  order = order-step takes t t.slot.pending t.slot.is_closed refl refl h.order;
}
step-Inv closes t h = record {
  closed_empty = ground arith;
  open_count = ground arith;
  low = ground arith;
  high = ground arith;
  order = order-step closes t t.slot.pending t.slot.is_closed refl refl h.order;
}

run-Inv : (cs : List Call) (t : Trace) → Inv t → Inv (run cs t)
unfolding run
run-Inv [] t h = h
run-Inv (c ∷ cs) t h = run-Inv cs (step c t) (step-Inv c t h)

Subsequence-drop :
    (held : Option FrameEnvelope) {xs ys : List FrameEnvelope}
    → Subsequence (to_list held ++ xs) ys
    → Subsequence xs ys
Subsequence-drop none s = s
Subsequence-drop (some f) s = Subsequence-tail f refl s

-- The frames that the takers of a new slot get are some of those that were offered, in the same
-- order: the slot leaves frames out, and repeats or reorders none.
pub delivered_in_order :
    (cs : List Call) → Subsequence (run cs start).delivered (run cs start).offered
delivered_in_order cs =
    Subsequence-drop (run cs start).slot.pending (run-Inv cs start start-Inv).order

-- Each frame that an open slot accepted was replaced, taken, or is the one that it holds.
pub accepted_accounts :
    (cs : List Call)
    → let s = (run cs start).slot in
      s.is_closed ≡ false → s.offered_count ≡ s.replaced_count + s.taken_count + pending_count s
accepted_accounts cs = (run-Inv cs start start-Inv).open_count

step_closed :
    (c : Call) (t : Trace)
    → t.slot.is_closed ≡ true
    → t.slot.pending ≡ none
    → ((step c t).slot.is_closed ≡ true)
      × ((step c t).slot.pending ≡ none)
      × ((step c t).delivered ≡ t.delivered)
unfolding step apply offer close
step_closed (offers f) t c p = ground arith
step_closed takes t c p = ground arith
step_closed closes t c p = ground arith

run_closed :
    (cs : List Call) (t : Trace)
    → t.slot.is_closed ≡ true
    → t.slot.pending ≡ none
    → ((run cs t).slot.pending ≡ none) × ((run cs t).delivered ≡ t.delivered)
unfolding run
run_closed [] t c p = (p, refl)
run_closed (c ∷ cs) t shut p =
    let (shut', p', same) = step_closed c t shut p in
    let (q, same') = run_closed cs (step c t) shut' p' in (q, same' ∙ same)

-- A slot that was closed holds no frame and delivers none, whatever is called afterwards.
pub nothing_after_close :
    (before after : List Call)
    → let t = run before start in
      let u = run after (step closes t) in (u.slot.pending ≡ none) × (u.delivered ≡ t.delivered)
unfolding step apply close
nothing_after_close before after = run_closed after (step closes (run before start)) refl refl
