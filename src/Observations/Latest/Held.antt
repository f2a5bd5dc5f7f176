-- ===== src/Observations/Latest/Held.antt =====
-- observations/latest.py: the slot over any sequence of calls.
use viskium.Prelude.{
  ℕ, suc, ◌+◌, ◌-◌, ◌≡◌, refl, Option, none, some, Bool, true, false, ◌||◌, List, [], ◌∷◌, arith,
  if◌then◌else◌, is_some, ltb,
}
use viskium.Core.Envelope.{ObservationEnvelope}
use viskium.Observations.Latest.{
  ReadOutcome, LatestObservationSlot, new_slot, count_read, offer, close, Call, offers, closes,
  reads, apply, apply_all,
}

abbrev pub has_close : List Call → Bool
has_close [] = false
has_close (closes ∷ cs) = true
has_close (_ ∷ cs) = has_close cs

-- The last observation that is offered, or `o` if none is.
abbrev pub last_offered : Option ObservationEnvelope → List Call → Option ObservationEnvelope
last_offered o [] = o
last_offered o (offers p ∷ cs) = last_offered (some p) cs
last_offered o (_ ∷ cs) = last_offered o cs

abbrev pub count_offers : List Call → ℕ
count_offers [] = 0
count_offers (offers p ∷ cs) = suc (count_offers cs)
count_offers (_ ∷ cs) = count_offers cs

-- The offers before the first close, and those after it.
abbrev pub offers_before : List Call → ℕ
offers_before [] = 0
offers_before (offers p ∷ cs) = suc (offers_before cs)
offers_before (closes ∷ cs) = 0
offers_before (reads r ∷ cs) = offers_before cs

abbrev pub offers_after : List Call → ℕ
offers_after [] = 0
offers_after (closes ∷ cs) = count_offers cs
offers_after (_ ∷ cs) = offers_after cs

abbrev pub same_outcome : ReadOutcome → ReadOutcome → Bool
same_outcome ReadOutcome.ok ReadOutcome.ok = true
same_outcome ReadOutcome.empty ReadOutcome.empty = true
same_outcome ReadOutcome.stale ReadOutcome.stale = true
same_outcome ReadOutcome.schema_mismatch ReadOutcome.schema_mismatch = true
same_outcome ReadOutcome.timeout ReadOutcome.timeout = true
same_outcome ReadOutcome.closed ReadOutcome.closed = true
same_outcome ReadOutcome.future_timestamp ReadOutcome.future_timestamp = true
same_outcome _ _ = false

-- The reads that ended so.
abbrev pub count_reads : ReadOutcome → List Call → ℕ
count_reads r [] = 0
count_reads r (reads x ∷ cs) =
    let rest = count_reads r cs in if same_outcome r x then suc rest else rest
count_reads r (_ ∷ cs) = count_reads r cs

-- The counter of the reads that ended so.
abbrev pub reads_of : ReadOutcome → LatestObservationSlot → ℕ
reads_of ReadOutcome.ok s = s.reads_ok
reads_of ReadOutcome.empty s = s.reads_empty
reads_of ReadOutcome.stale s = s.reads_stale
reads_of ReadOutcome.schema_mismatch s = s.reads_schema_mismatch
reads_of ReadOutcome.timeout s = s.reads_timeout
reads_of ReadOutcome.closed s = s.reads_closed
reads_of ReadOutcome.future_timestamp s = s.reads_future_timestamp

reads_of-count_read :
    (r x : ReadOutcome) (s : LatestObservationSlot)
    → reads_of r (count_read x s) ≡ (if same_outcome r x then reads_of r s + 1 else reads_of r s)
unfolding count_read
reads_of-count_read ReadOutcome.ok ReadOutcome.ok s = refl
reads_of-count_read ReadOutcome.empty ReadOutcome.empty s = refl
reads_of-count_read ReadOutcome.stale ReadOutcome.stale s = refl
reads_of-count_read ReadOutcome.schema_mismatch ReadOutcome.schema_mismatch s = refl
reads_of-count_read ReadOutcome.timeout ReadOutcome.timeout s = refl
reads_of-count_read ReadOutcome.closed ReadOutcome.closed s = refl
reads_of-count_read ReadOutcome.future_timestamp ReadOutcome.future_timestamp s = refl
reads_of-count_read _ _ s = refl

-- What the calls do to the counters of offers.
abbrev pub Counted : List Call → LatestObservationSlot → LatestObservationSlot → Type 0
Counted cs s s' =
    (s'.offers_accepted
      ≡ s.offers_accepted
        + (if s.is_closed || is_some s.latest
            then 0
            else if ltb 0 (offers_before cs)
            then 1
            else 0))
    × (s'.offers_replaced
        ≡ s.offers_replaced
          + (if s.is_closed
              then 0
              else if is_some s.latest
              then offers_before cs
              else offers_before cs - 1))
    × (s'.offers_closed
        ≡ s.offers_closed + (if s.is_closed then count_offers cs else offers_after cs))

abbrev pub Held : List Call → LatestObservationSlot → LatestObservationSlot → Type 0
Held cs s s' =
    (s'.latest ≡ (if s.is_closed || has_close cs then none else last_offered s.latest cs))
    × (s'.is_closed ≡ (s.is_closed || has_close cs))

-- What the calls leave, from a slot that holds nothing if it is closed.
abbrev pub Left : List Call → LatestObservationSlot → LatestObservationSlot → Type 0
Left cs s s' =
    Held cs s s'
    × Counted cs s s'
    × ((r : ReadOutcome) → reads_of r s' ≡ reads_of r s + count_reads r cs)

reads_of-offer :
    (r : ReadOutcome) (o : ObservationEnvelope) (s : LatestObservationSlot)
    → reads_of r (offer o s).0 ≡ reads_of r s
unfolding offer
reads_of-offer ReadOutcome.ok o s = ground arith
reads_of-offer _ o s = ground arith

reads_of-close : (r : ReadOutcome) (s : LatestObservationSlot) → reads_of r (close s) ≡ reads_of r s
unfolding close
reads_of-close ReadOutcome.ok s = ground arith
reads_of-close _ s = ground arith

apply-reads_of :
    (c : Call) (cs : List Call) (r : ReadOutcome) (s s' : LatestObservationSlot)
    → reads_of r s' ≡ reads_of r (apply c s) + count_reads r cs
    → reads_of r s' ≡ reads_of r s + count_reads r (c ∷ cs)
unfolding apply
apply-reads_of (offers o) cs r s s' h = omega (arith, h, reads_of-offer r o s)
apply-reads_of closes cs r s s' h = omega (arith, h, reads_of-close r s)
apply-reads_of (reads x) cs r s s' h = ground (arith, h, reads_of-count_read r x s)

apply-Held :
    (c : Call) (cs : List Call) (s s' : LatestObservationSlot)
    → (s.is_closed ≡ true → s.latest ≡ none)
    → Held cs (apply c s) s'
    → Held (c ∷ cs) s s'
unfolding apply offer close count_read
apply-Held (offers o) cs s s' h l = ground arith
apply-Held closes cs s s' h l = ground arith
apply-Held (reads ReadOutcome.ok) cs s s' h l = l
apply-Held (reads ReadOutcome.empty) cs s s' h l = l
apply-Held (reads ReadOutcome.stale) cs s s' h l = l
apply-Held (reads ReadOutcome.schema_mismatch) cs s s' h l = l
apply-Held (reads ReadOutcome.timeout) cs s s' h l = l
apply-Held (reads ReadOutcome.closed) cs s s' h l = l
apply-Held (reads ReadOutcome.future_timestamp) cs s s' h l = l

apply-Counted :
    (c : Call) (cs : List Call) (s s' : LatestObservationSlot)
    → (s.is_closed ≡ true → s.latest ≡ none)
    → Counted cs (apply c s) s'
    → Counted (c ∷ cs) s s'
unfolding apply offer close count_read
apply-Counted (offers o) cs s s' h l = ground arith
apply-Counted closes cs s s' h l = ground arith
apply-Counted (reads ReadOutcome.ok) cs s s' h l = l
apply-Counted (reads ReadOutcome.empty) cs s s' h l = l
apply-Counted (reads ReadOutcome.stale) cs s s' h l = l
apply-Counted (reads ReadOutcome.schema_mismatch) cs s s' h l = l
apply-Counted (reads ReadOutcome.timeout) cs s s' h l = l
apply-Counted (reads ReadOutcome.closed) cs s s' h l = l
apply-Counted (reads ReadOutcome.future_timestamp) cs s s' h l = l

apply-closed_empty :
    (c : Call) (s : LatestObservationSlot)
    → (s.is_closed ≡ true → s.latest ≡ none)
    → (apply c s).is_closed ≡ true
    → (apply c s).latest ≡ none
unfolding apply offer close count_read
apply-closed_empty (offers o) s h e = ground arith
apply-closed_empty closes s h e = ground arith
apply-closed_empty (reads ReadOutcome.ok) s h e = h e
apply-closed_empty (reads ReadOutcome.empty) s h e = h e
apply-closed_empty (reads ReadOutcome.stale) s h e = h e
apply-closed_empty (reads ReadOutcome.schema_mismatch) s h e = h e
apply-closed_empty (reads ReadOutcome.timeout) s h e = h e
apply-closed_empty (reads ReadOutcome.closed) s h e = h e
apply-closed_empty (reads ReadOutcome.future_timestamp) s h e = h e

apply_all-Left :
    (cs : List Call) (s : LatestObservationSlot)
    → (s.is_closed ≡ true → s.latest ≡ none)
    → Left cs s (apply_all cs s)
unfolding apply_all
apply_all-Left [] s h = (ground arith, ground arith, λ r. omega arith)
apply_all-Left (c ∷ cs) s h =
    let s' = apply_all cs (apply c s) in
    let (held, counted, read) = apply_all-Left cs (apply c s) (apply-closed_empty c s h) in
    (
      apply-Held c cs s s' h held,
      apply-Counted c cs s s' h counted,
      λ r. apply-reads_of c cs r s s' (read r),
    )

new_reads : (r : ReadOutcome) (m n : ℕ) → m ≡ reads_of r new_slot + n → m ≡ n
new_reads ReadOutcome.ok m n h = omega arith
new_reads _ m n h = omega arith

-- A slot is a register: after any calls it holds the observation that was offered last, whatever was
-- read, unless it was closed; once closed it holds nothing and stays closed. Of the offers, the first
-- before the first close is counted as accepted, the others before it as replacing, and those after
-- it as refused; of the reads, each outcome is counted as often as it occurred.
pub slot_is_register :
    (cs : List Call)
    → let s = apply_all cs new_slot in
      (s.latest ≡ (if has_close cs then none else last_offered none cs))
      × (s.is_closed ≡ has_close cs)
      × (s.offers_accepted ≡ (if ltb 0 (offers_before cs) then 1 else 0))
      × (s.offers_replaced ≡ offers_before cs - 1)
      × (s.offers_closed ≡ offers_after cs)
      × ((r : ReadOutcome) → reads_of r s ≡ count_reads r cs)
slot_is_register cs =
    let ((held, shut), (first, replacing, refused), read) =
      apply_all-Left cs new_slot (λ e. refl) in
    (
      held,
      shut,
      ground (arith, first),
      omega (arith, replacing),
      omega (arith, refused),
      λ r. new_reads r _ _ (read r),
    )
