-- ===== src/Capture/Slot.antt =====
-- capture/latest.py: `LatestFrameSlot`, a handoff that holds at most one frame. Each method runs
-- under the slot's lock, so calls of several threads are a sequence of calls.
pub mod Trace
pub mod Waiting
mod Tests
use viskium.Prelude.{
  ℕ, ◌+◌, Option, none, some, Bool, true, false, List, [], ◌∷◌, int_of_bool, is_some, if◌then◌else◌,
}
use viskium.Core.Envelope.{FrameEnvelope}

pub data OfferStatus : Type 0 where
  accepted replaced closed : OfferStatus

pub record FrameOffer : Type 0 where
  pub status : OfferStatus
  pub replaced_sequence : Option ℕ

pub record LatestFrameSlot : Type 0 where
  pub pending : Option FrameEnvelope
  pub is_closed : Bool
  pub offered_count : ℕ
  pub replaced_count : ℕ
  pub taken_count : ℕ
  pub rejected_count : ℕ

abbrev pub new_slot : LatestFrameSlot
new_slot = record {
  pending = none;
  is_closed = false;
  offered_count = 0;
  replaced_count = 0;
  taken_count = 0;
  rejected_count = 0;
}

replace_pending :
    Option FrameEnvelope → FrameEnvelope → LatestFrameSlot → LatestFrameSlot × FrameOffer
replace_pending none frame s = (
  record s { pending = some frame; offered_count = s.offered_count + 1 },
  record { status = OfferStatus.accepted; replaced_sequence = none },
)
replace_pending (some old) frame s = (
  record s {
    pending = some frame;
    offered_count = s.offered_count + 1;
    replaced_count = s.replaced_count + 1;
  },
  record { status = OfferStatus.replaced; replaced_sequence = some old.sequence },
)

unfoldable pub offer : FrameEnvelope → LatestFrameSlot → LatestFrameSlot × FrameOffer
unfolding replace_pending
offer frame s =
    if s.is_closed
    then (
      record s { rejected_count = s.rejected_count + 1 },
      record { status = OfferStatus.closed; replaced_sequence = none },
    )
    else replace_pending s.pending frame s

unfoldable pub close : LatestFrameSlot → LatestFrameSlot
close s = record s { is_closed = true; pending = none }

unfoldable pub pending_count : LatestFrameSlot → ℕ
pending_count s = int_of_bool (is_some s.pending)

-- The end of `take`, behind its waiting loop.
grab : LatestFrameSlot → LatestFrameSlot × Option FrameEnvelope
grab s = elim s.pending [
  | none ↦ (s, none)
  | some frame ↦ (record s { pending = none; taken_count = s.taken_count + 1 }, some frame)
]

pub data Call : Type 0 where
  offers : FrameEnvelope → Call
  takes closes : Call

-- A call by another thread while `take` waits; a `takes` here is one that need not wait.
unfoldable pub apply : Call → LatestFrameSlot → LatestFrameSlot × Option FrameEnvelope
unfolding offer close grab
apply (offers frame) s = ((offer frame s).0, none)
apply takes s = grab s
apply closes s = (close s, none)

apply_all : List Call → LatestFrameSlot → LatestFrameSlot
unfolding apply
apply_all [] s = s
apply_all (c ∷ cs) s = apply_all cs (apply c s).0

-- A turn of the loop: whether the deadline has passed when the clock is read, and, if not, what the
-- other threads do until the wait returns.
pub record Turn : Type 0 where
  pub expired : Bool
  pub meanwhile : List Call

-- `waiting`: the turns are used up and `take` still waits.
pub data TakeResult : Type 0 where
  returned : Option FrameEnvelope → TakeResult
  waiting : TakeResult

must_wait : LatestFrameSlot → Bool
must_wait s = elim s.pending [ some _ ↦ false | none ↦ if s.is_closed then false else true ]

abbrev pub finish : LatestFrameSlot × Option FrameEnvelope → LatestFrameSlot × TakeResult
finish (s, frame) = (s, returned frame)

unfoldable pub take : List Turn → LatestFrameSlot → LatestFrameSlot × TakeResult
unfolding grab apply_all must_wait
take [] s = if must_wait s then (s, waiting) else finish (grab s)
take (t ∷ ts) s =
    let rest = take ts (apply_all t.meanwhile s) in
    if must_wait s then (if t.expired then (s, returned none) else rest) else finish (grab s)
