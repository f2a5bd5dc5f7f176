-- ===== src/Storage/Writer/Drain.antt =====
-- storage/writer.py: `stop(drain=True)` ends with the whole queue in the store.
use viskium.Prelude.{ℕ, ◌≡◌, Option, none, true, List, [], ◌∷◌}
use viskium.Core.Receipt.{PersistenceReceipt}
use viskium.Storage.Writer.State.{WriterState, Writer}
use viskium.Storage.Writer.System.{Worker, Event, System, step}

-- The worker's own steps while the store returns these receipts, then finds its queue empty.
abbrev pub drain_events : {A : Type 0} → List PersistenceReceipt → List (Event A)
drain_events [] = Event.wakes ∷ Event.closes none ∷ []
drain_events (r ∷ rs) = Event.wakes ∷ Event.put_returns r ∷ drain_events rs

-- The worker waits for work in a writer that was told to drain.
pub record IsDraining {A : Type 0} (s : System A) : Type 0 where
  pub at_loop : s.worker ≡ Worker.looping
  pub state : s.writer.state ≡ WriterState.draining
  pub stopping : s.writer.stop_requested ≡ true
  pub drains : s.writer.drain_requested ≡ true

module _ {A : Type 0} (size : A → ℕ → Option ℕ) where
  abbrev one_put : PersistenceReceipt → System A → System A
  one_put r s = step size (Event.put_returns r) (step size Event.wakes s)
