-- ===== src/Storage/Memory/Tests.antt =====
-- adapters/memory_store.py: a store of two observations.
use text.Mathlib.Text.{◌==◌ as str_eq}
use viskium.Prelude.{
  ℕ, ◌≡◌, ◌≤◌, refl, Option, none, some, Bool, false, List, [], ◌∷◌, ◌==◌, ◌&&◌, length, total,
}
use viskium.Core.Value.{natural, ok}
use viskium.Core.Envelope.{ObservationEnvelope}
use viskium.Core.Receipt.{PersistenceStatus, PersistenceReceipt}
use viskium.Core.Sample.{sample}
use viskium.Core.Serialization.{json_tokens}
use viskium.Core.Serialization.Document.{observation_size}
use viskium.Storage.Memory.{MemoryStore, make_store, get, set, put, clear, close}
use viskium.Storage.Memory.Log.{Call, puts, closes, empty_log, log_run, document_bytes}
use viskium.Storage.Memory.Refinement.{run, store_refines_log}
use viskium.Storage.Memory.Bounds.{store_within_limits}

-- The samples differ in their key and their time.
abbrev same : ObservationEnvelope → ObservationEnvelope → Bool
same a b =
    str_eq a.idempotency_key b.idempotency_key
    && (a.observed_monotonic_ns == b.observed_monotonic_ns)

-- An encoder that raises at one observation, in place of one that has a lone surrogate.
abbrev fails : ObservationEnvelope → ℕ → Bool
fails o limit = str_eq o.idempotency_key "d"

abbrev store : MemoryStore
store = record {
  max_observations = 2;
  max_bytes = 800;
  observations = [];
  sequences_by_key = [];
  observations_by_key = [];
  bytes_used = 0;
  closed = false;
}

store-made : make_store (natural 2) (natural 800) ≡ ok store
unfolding make_store
store-made = refl

abbrev calls : List Call
calls =
    puts (sample "a" 3)
    ∷ puts (sample "b" 4)
    ∷ puts (sample "a" 3)
    ∷ puts (sample "b" 5)
    ∷ puts (sample "d" 6)
    ∷ puts (sample "c" 6)
    ∷ closes
    ∷ puts (sample "a" 3)
    ∷ []

abbrev statuses : List (Option PersistenceReceipt) → List (Option (PersistenceStatus × Option ℕ))
statuses [] = []
statuses (none ∷ rs) = none ∷ statuses rs
statuses (some r ∷ rs) = some (r.status, r.store_sequence) ∷ statuses rs

statuses_lem :
    statuses (run same fails 2 800 calls store).1
    ≡ some (PersistenceStatus.accepted, some 1)
      ∷ some (PersistenceStatus.accepted, some 2)
      ∷ some (PersistenceStatus.coalesced, some 1)
      ∷ some (PersistenceStatus.rejected, some 2)
      ∷ some (PersistenceStatus.rejected, none)
      ∷ some (PersistenceStatus.rejected, none)
      ∷ none
      ∷ some (PersistenceStatus.failed, none)
      ∷ []
unfolding run put get set clear close observation_size json_tokens
statuses_lem = refl

store_refines_log_example :
    ((run same fails 2 800 calls store).1 ≡ (log_run same fails 2 800 calls empty_log).1)
    × ((run same fails 2 800 calls store).0.observations
        ≡ (log_run same fails 2 800 calls empty_log).0.entries)
    × ((run same fails 2 800 calls store).0.bytes_used
        ≡ total document_bytes (log_run same fails 2 800 calls empty_log).0.entries)
store_refines_log_example = store_refines_log same fails 2 800 store calls store-made

store_within_limits_example :
    (length (run same fails 2 800 calls store).0.observations ≤ 2)
    × ((run same fails 2 800 calls store).0.bytes_used
        ≡ total document_bytes (run same fails 2 800 calls store).0.observations)
    × ((run same fails 2 800 calls store).0.bytes_used ≤ 800)
store_within_limits_example = store_within_limits same fails 2 800 store calls store-made
