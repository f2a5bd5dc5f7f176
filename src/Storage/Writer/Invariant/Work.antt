-- ===== src/Storage/Writer/Invariant/Work.antt =====
-- storage/writer.py: the sections of `_run` keep the invariant of the writer.
use mathlib.Core.List.{append_assoc, append-nil}
use viskium.Prelude.{
  ℕ, ◌≡◌, refl, String, Option, [], ◌∷◌, ◌++◌, arith, length-append, inl, inr, List-cases,
}
use viskium.Core.Receipt.{PersistenceReceipt}
use viskium.Storage.Writer.Recent.{length-push_recent}
use viskium.Storage.Writer.Worker.{
  receipt_metadata, factory_failed, store_ready, next, put_failed, put_done, run_end,
}
use viskium.Storage.Writer.System.{Worker, Event, System, step}
use viskium.Storage.Writer.Invariant.{Inv, cut-discard}

module _ {A : Type 0} where
  pub enters-Inv : (size : A → ℕ → Option ℕ) (s : System A) → Inv s → Inv (step size Event.enters s)
  unfolding step store_ready
  enters-Inv size s h = ground arith

  pub factory_raises-Inv :
      (size : A → ℕ → Option ℕ) (e : String) (s : System A)
      → Inv s
      → Inv (step size (Event.factory_raises e) s)
  unfolding step factory_failed
  factory_raises-Inv size e s h = ground (arith, append-nil s.dropped)

  pub factory_is_invalid-Inv :
      (size : A → ℕ → Option ℕ) (s : System A) → Inv s → Inv (step size Event.factory_is_invalid s)
  unfolding step factory_failed
  factory_is_invalid-Inv size s h = ground (arith, append-nil s.dropped)

  pub factory_makes-Inv :
      (size : A → ℕ → Option ℕ) (s : System A) → Inv s → Inv (step size Event.factory_makes s)
  unfolding step
  factory_makes-Inv size s h = ground arith

  pub wakes-Inv : (size : A → ℕ → Option ℕ) (s : System A) → Inv s → Inv (step size Event.wakes s)
  unfolding step next
  wakes-Inv size s h = elim (List-cases s.writer.queue) [
    | inl empty ↦ ground arith
    | inr (p, rest, e) ↦
        ground
          (arith, append_assoc s.puts (p ∷ []) (rest ++ s.dropped), length-append s.puts (p ∷ []))
  ]

  pub closes-Inv :
      (size : A → ℕ → Option ℕ) (f : Option String) (s : System A)
      → Inv s
      → Inv (step size (Event.closes f) s)
  unfolding step run_end
  closes-Inv size f s h = ground arith

  pub put_raises-Inv :
      (size : A → ℕ → Option ℕ) (e : String) (s : System A)
      → Inv s
      → Inv (step size (Event.put_raises e) s)
  unfolding step put_failed
  put_raises-Inv size e s h = ground (
    arith,
    cut-discard s.writer (put_failed e s.writer),
    append-nil s.writer.queue,
    append-nil s.dropped,
    length-append s.dropped s.writer.queue,
  )

  -- At each place of the worker.
  put_returns_at :
      (size : A → ℕ → Option ℕ) (r : PersistenceReceipt) (s : System A) (at : Worker A)
      → s.worker ≡ at
      → Inv s
      → Inv (step size (Event.put_returns r) s)
  unfolding step put_done
  put_returns_at size r s (Worker.putting p) e h = ground (
    arith,
    length-push_recent s.writer.receipt_history_limit s.writer.recent
        (receipt_metadata r p.canonical_bytes),
  )
  put_returns_at size r s _ e h = ground arith

  pub put_returns-Inv :
      (size : A → ℕ → Option ℕ) (r : PersistenceReceipt) (s : System A)
      → Inv s
      → Inv (step size (Event.put_returns r) s)
  put_returns-Inv size r s = put_returns_at size r s s.worker refl
