-- ===== src/Capture/Slot/Waiting.antt =====
-- capture/latest.py: how `take` ends.
use viskium.Prelude.{
  ◌≡◌, refl, ◌≢◌, Option, none, some, Bool, true, false, not, ◌&&◌, ◌||◌, ◌+◌, List, [], ◌∷◌, arith,
  if◌then◌else◌,
}
use viskium.Core.Envelope.{FrameEnvelope}
use viskium.Capture.Slot.{
  LatestFrameSlot, apply_all, must_wait, grab, finish, Turn, TakeResult, returned, waiting, take,
}

abbrev pub some_expired : List Turn → Bool
some_expired [] = false
some_expired (t ∷ ts) = t.expired || some_expired ts

-- `take` does not wait for ever: once the clock has passed its deadline at a turn, it has returned.
pub take_returns :
    (ts : List Turn) (s : LatestFrameSlot) → some_expired ts ≡ true → (take ts s).1 ≢ waiting
unfolding take
take_returns [] s h e = cc
take_returns (t ∷ ts) s h e = ground (arith, take_returns ts (apply_all t.meanwhile s))

-- The slot at the turn at which the loop of `take` ends: it need not wait any more, its deadline has
-- passed, or the turns are over.
pub settled : List Turn → LatestFrameSlot → LatestFrameSlot
settled [] s = s
settled (t ∷ ts) s =
    let later = settled ts (apply_all t.meanwhile s) in
    if must_wait s && not t.expired then later else s

-- How `take` ends, from the slot `h` in which its loop ended.
abbrev pub Ended : LatestFrameSlot → List Turn → LatestFrameSlot × TakeResult → Type 0
Ended h ts (s, returned (some f)) =
    (h.pending ≡ some f) × (s ≡ record h { pending = none; taken_count = h.taken_count + 1 })
Ended h ts (s, returned none) =
    (h.pending ≡ none) × (s ≡ h) × ((s.is_closed || some_expired ts) ≡ true)
Ended h ts (s, waiting) = (h.pending ≡ none) × (s ≡ h) × (s.is_closed ≡ false)

Ended-later :
    (t : Turn) (ts : List Turn) (h : LatestFrameSlot) (r : LatestFrameSlot × TakeResult)
    → Ended h ts r
    → Ended h (t ∷ ts) r
Ended-later t ts h (s, returned (some f)) e = e
Ended-later t ts h (s, returned none) (p, q, e) = (p, q, ground arith)
Ended-later t ts h (s, waiting) e = e

Ended-grab :
    (ts : List Turn) (s : LatestFrameSlot) (held : Option FrameEnvelope)
    → s.pending ≡ held
    → must_wait s ≡ false
    → Ended s ts (finish (grab s))
unfolding must_wait grab
Ended-grab ts s none e h = rw e (refl, refl, ground arith)
Ended-grab ts s (some f) e h = rw e (refl, refl)

must_wait_needs :
    (s : LatestFrameSlot) → must_wait s ≡ true → (s.pending ≡ none) × (s.is_closed ≡ false)
unfolding must_wait
must_wait_needs s h = ground arith

Ended-turn :
    (t : Turn) (ts : List Turn) (s : LatestFrameSlot) (w x : Bool)
    → must_wait s ≡ w
    → t.expired ≡ x
    → (later : LatestFrameSlot) (r : LatestFrameSlot × TakeResult) → Ended later ts r
    → Ended
        (if w && not x then later else s)
        (t ∷ ts)
        (if w then (if x then (s, returned none) else r) else finish (grab s))
Ended-turn t ts s false x m d later r e = Ended-grab (t ∷ ts) s s.pending refl m
Ended-turn t ts s true false m d later r e = Ended-later t ts later r e
Ended-turn t ts s true true m d later r e = ((must_wait_needs s m).0, refl, ground arith)

Ended-last :
    (s : LatestFrameSlot) (w : Bool)
    → must_wait s ≡ w
    → Ended s [] (if w then (s, waiting) else finish (grab s))
Ended-last s false m = Ended-grab [] s s.pending refl m
Ended-last s true m = let (p, q) = must_wait_needs s m in (p, refl, q)

-- `take` returns the frame that the slot holds when its loop ends, empties the slot and counts one
-- frame more as taken, and changes nothing else. It comes back with no frame only if the slot is
-- then empty, and closed or past the deadline, and it goes on waiting only while the slot is empty
-- and open; neither changes the slot.
pub take-Ended : (ts : List Turn) (s : LatestFrameSlot) → Ended (settled ts s) ts (take ts s)
unfolding take settled
take-Ended [] s = Ended-last s (must_wait s) refl
take-Ended (t ∷ ts) s =
    Ended-turn t ts s (must_wait s) t.expired refl refl _ _
      (take-Ended ts (apply_all t.meanwhile s))
