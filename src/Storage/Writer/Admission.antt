-- ===== src/Storage/Writer/Admission.antt =====
-- storage/writer.py: when `submit` queues an observation.
use viskium.Prelude.{
  ℕ, ◌+◌, ◌≤◌, ◌<◌, ◌≡◌, ◌≢◌, refl, ◌↔◌, inl, inr, Option, none, some, arith, length, Option-cases,
}
use viskium.Storage.Writer.State.{WriterState, SubmissionStatus, Writer}
use viskium.Storage.Writer.Calls.{submit}

module _ {A : Type 0} (size : A → ℕ → Option ℕ) where
  -- What lets an observation in: a running writer, a measured size, and room by count and by bytes.
  pub record Admits (o : A) (w : Writer A) (bytes : ℕ) : Type 0 where
    pub measured : size o w.max_pending_bytes ≡ some bytes
    pub state : w.state ≡ WriterState.running
    pub room : length w.queue < w.max_pending_count
    pub fits : w.pending_bytes + bytes ≤ w.max_pending_bytes

  queued_needs :
      (o : A) (w : Writer A)
      → (submit size (some o) w).1.status ≡ SubmissionStatus.queued
      → (bytes : ℕ) × Admits o w bytes
  unfolding submit
  queued_needs o w h = elim (Option-cases (size o w.max_pending_bytes)) [
    | inl large ↦ absurd (ground arith)
    | inr (bytes, e) ↦ (bytes, ground arith)
  ]

  admitted_is_queued :
      (o : A) (w : Writer A) (bytes : ℕ)
      → Admits o w bytes
      → (submit size (some o) w).1.status ≡ SubmissionStatus.queued
  unfolding submit
  admitted_is_queued o w bytes h = ground arith

  -- `submit` queues an observation exactly when the writer runs, the observation could be measured,
  -- and it fits both limits.
  pub submit-queued_iff :
      (o : A) (w : Writer A)
      → ((submit size (some o) w).1.status ≡ SubmissionStatus.queued)
        ↔ ((bytes : ℕ) × Admits o w bytes)
  submit-queued_iff o w = (queued_needs o w, λ h. admitted_is_queued o w h.0 h.1)

  -- A submission that is not queued changes nothing but the count of rejections, which grows by one.
  pub submit_refusal :
      (o : Option A) (w : Writer A)
      → (submit size o w).1.status ≢ SubmissionStatus.queued
      → (submit size o w).0 ≡ record w { rejected_count = w.rejected_count + 1 }
  unfolding submit
  submit_refusal none w h = refl
  submit_refusal (some o) w h = elim (Option-cases (size o w.max_pending_bytes)) [
    | inl large ↦ ground arith
    | inr (bytes, e) ↦ ground arith
  ]
