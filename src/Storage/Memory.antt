-- ===== src/Storage/Memory.antt =====
-- adapters/memory_store.py: `MemoryStore`, an observation store that never evicts.
pub mod Log
pub mod Append
pub mod Refinement
pub mod Bounds
mod Tests
use text.Mathlib.Text.{◌==◌ as str_eq}
use viskium.Prelude.{
  ℕ, suc, ◌+◌, String, Option, none, some, Bool, true, false, List, [], ◌∷◌, ◌++◌, ltb, leb, length,
  if◌then◌else◌,
}
use viskium.Core.Value.{Value, natural, Result, ok, raise, value_error}
use viskium.Core.Envelope.{ObservationEnvelope}
use viskium.Core.Receipt.{PersistenceStatus, PersistenceReceipt}
use viskium.Core.Serialization.Document.{observation_size}

-- A dict, as its items in the order of insertion.
abbrev pub Dict {ℓ} : Type ℓ → Type ℓ
Dict A = List (String × A)

-- `d.get(key)`
unfoldable pub get {ℓ} : {A : Type ℓ} → String → Dict A → Option A
get key [] = none
get key ((k, v) ∷ rest) = if str_eq k key then some v else get key rest

-- `d[key] = value`
unfoldable pub set {ℓ} : {A : Type ℓ} → String → A → Dict A → Dict A
set key value [] = (key, value) ∷ []
set key value ((k, v) ∷ rest) =
    let others = set key value rest in if str_eq k key then (k, value) ∷ rest else (k, v) ∷ others

pub record MemoryStore : Type 0 where
  pub max_observations : ℕ
  pub max_bytes : ℕ
  pub observations : List ObservationEnvelope
  pub sequences_by_key : Dict ℕ
  pub observations_by_key : Dict ObservationEnvelope
  pub bytes_used : ℕ
  pub closed : Bool

positive_limit : Value → Result ℕ
positive_limit (natural (suc n)) = ok (suc n)
positive_limit _ = raise value_error

-- `MemoryStore(max_observations=..., max_bytes=...)`
unfoldable pub make_store : Value → Value → Result MemoryStore
unfolding positive_limit
make_store max_observations max_bytes = elim (positive_limit max_observations) [
  | raise e ↦ raise e
  | ok rows ↦ elim (positive_limit max_bytes) [
    | raise e ↦ raise e
    | ok bytes ↦ ok (record {
      max_observations = rows;
      max_bytes = bytes;
      observations = [];
      sequences_by_key = [];
      observations_by_key = [];
      bytes_used = 0;
      closed = false;
    })
  ]
]

abbrev pub refusal : PersistenceStatus → String → Option ℕ → PersistenceReceipt
refusal status reason sequence = record {
  status = status;
  reason = some reason;
  store_sequence = sequence;
  bytes_accepted = 0;
}

abbrev pub accepted : ℕ → ℕ → PersistenceReceipt
accepted sequence bytes = record {
  status = PersistenceStatus.accepted;
  reason = none;
  store_sequence = some sequence;
  bytes_accepted = bytes;
}

-- The receipt for a key that the store has; `same` is whether the observations are equal. A sequence
-- that is missing, for which the source raises a KeyError, would be `none`.
abbrev pub known_receipt : Bool → Option ℕ → PersistenceReceipt
known_receipt same sequence =
    if same
    then refusal PersistenceStatus.coalesced "duplicate_idempotency_key" sequence
    else refusal PersistenceStatus.rejected "idempotency_conflict" sequence

unfoldable pub append : ObservationEnvelope → ℕ → MemoryStore → MemoryStore × PersistenceReceipt
unfolding set
append o size s =
    let observations = s.observations ++ o ∷ [] in
    let sequence = length observations in
    (
      record s {
        observations = observations;
        sequences_by_key = set o.idempotency_key sequence s.sequences_by_key;
        observations_by_key = set o.idempotency_key o s.observations_by_key;
        bytes_used = s.bytes_used + size;
      },
      accepted sequence size,
    )

-- Behind the look-up of the key.
unfoldable pub put_new :
    ObservationEnvelope → Option ℕ → MemoryStore → MemoryStore × PersistenceReceipt
unfolding append
put_new o none s = (s, refusal PersistenceStatus.rejected "observation_exceeds_byte_limit" none)
put_new o (some size) s =
    if leb s.max_observations (length s.observations)
    then (s, refusal PersistenceStatus.rejected "count_limit_reached" none)
    else if ltb s.max_bytes (s.bytes_used + size)
    then (s, refusal PersistenceStatus.rejected "byte_limit_reached" none)
    else append o size s

-- `same` stands for `==` on observations, which compares their frozen payloads too, and `fails` for
-- whether Python's encoder raises (RecursionError, TypeError or ValueError, as at a lone surrogate)
-- when `observation_size` measures an observation up to a limit.
module _ (same : ObservationEnvelope → ObservationEnvelope → Bool)
    (fails : ObservationEnvelope → ℕ → Bool) where
  unfoldable pub put_looked_up :
      ObservationEnvelope
      → Option ObservationEnvelope
      → MemoryStore
      → MemoryStore × PersistenceReceipt
  unfolding put_new get observation_size
  put_looked_up o none s =
      if fails o s.max_bytes
      then (s, refusal PersistenceStatus.rejected "payload_not_serializable" none)
      else put_new o (observation_size o s.max_bytes) s
  put_looked_up o (some existing) s =
      (s, known_receipt (same existing o) (get o.idempotency_key s.sequences_by_key))

  unfoldable pub put : ObservationEnvelope → MemoryStore → MemoryStore × PersistenceReceipt
  unfolding put_looked_up get
  put o s =
      if s.closed
      then (s, refusal PersistenceStatus.failed "store_closed" none)
      else put_looked_up o (get o.idempotency_key s.observations_by_key) s

unfoldable pub clear : MemoryStore → MemoryStore
clear s = record s {
  observations = [];
  sequences_by_key = [];
  observations_by_key = [];
  bytes_used = 0;
}

unfoldable pub close : MemoryStore → MemoryStore
unfolding clear
close s = if s.closed then s else record (clear s) { closed = true }
