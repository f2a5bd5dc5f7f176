-- ===== src/Storage/Writer/Invariant/Callers.antt =====
-- storage/writer.py: `start`, `submit` and `stop` keep the invariant of the writer.
use mathlib.Core.List.{append_assoc, append-nil}
use viskium.Prelude.{
  ℕ, ◌≡◌, Option, none, some, Bool, [], ◌∷◌, ◌++◌, arith, length-append, total-append, inl, inr,
  Option-cases,
}
use viskium.Storage.Writer.State.{Pending}
use viskium.Storage.Writer.Calls.{start_begin, start_end, submit, stop_begin, stop_end}
use viskium.Storage.Writer.System.{Event, System, step}
use viskium.Storage.Writer.Invariant.{Inv, cut-discard}

module _ {A : Type 0} where
  pub start-Inv : (size : A → ℕ → Option ℕ) (s : System A) → Inv s → Inv (step size Event.starts s)
  unfolding step start_begin
  start-Inv size s h = ground arith

  pub start_expires-Inv :
      (size : A → ℕ → Option ℕ) (s : System A) → Inv s → Inv (step size Event.start_expires s)
  unfolding step start_end
  start_expires-Inv size s h = ground arith

  pub stop_expires-Inv :
      (size : A → ℕ → Option ℕ) (s : System A) → Inv s → Inv (step size Event.stop_expires s)
  unfolding step stop_end
  stop_expires-Inv size s h = ground arith

  pub stops-Inv :
      (size : A → ℕ → Option ℕ) (drain : Bool) (s : System A)
      → Inv s
      → Inv (step size (Event.stops drain) s)
  unfolding step stop_begin
  stops-Inv size drain s h = ground (
    arith,
    cut-discard s.writer (stop_begin drain s.writer).0,
    append-nil s.writer.queue,
    append-nil s.dropped,
    length-append s.dropped s.writer.queue,
  )

  submit_measured-Inv :
      (size : A → ℕ → Option ℕ) (o : A) (s : System A) {bytes : ℕ}
      → size o s.writer.max_pending_bytes ≡ some bytes
      → Inv s
      → Inv (step size (Event.submits (some o)) s)
  unfolding step submit
  submit_measured-Inv size o s {bytes} e h =
      let p : Pending A = record { observation = o; canonical_bytes = bytes } in
      ground (
        arith,
        append-nil s.writer.queue,
        append-nil (s.writer.queue ++ p ∷ []),
        append-nil s.submitted,
        append_assoc s.puts s.writer.queue (p ∷ []),
        length-append s.writer.queue (p ∷ []),
        length-append s.submitted (p ∷ []),
        total-append (λ (q : Pending A). q.canonical_bytes) s.writer.queue (p ∷ []),
      )

  pub submits-Inv :
      (size : A → ℕ → Option ℕ) (o : Option A) (s : System A)
      → Inv s
      → Inv (step size (Event.submits o) s)
  unfolding step submit
  submits-Inv size none s h = ground arith
  submits-Inv size (some o) s h = elim (Option-cases (size o s.writer.max_pending_bytes)) [
    | inl large ↦ ground (arith, append-nil s.submitted)
    | inr (bytes, e) ↦ submit_measured-Inv size o s e h
  ]
