-- ===== src/Storage/Memory/Log.antt =====
-- adapters/memory_store.py: what the store promises, a bounded log of observations with distinct keys.
use text.Mathlib.Text.{◌==◌ as str_eq}
use viskium.Prelude.{
  ℕ, ◌+◌, ◌≡◌, String, Option, none, some, Bool, true, false, List, [], ◌∷◌, ◌++◌, ltb, leb, length,
  total, if◌then◌else◌,
}
use viskium.Core.Envelope.{ObservationEnvelope}
use viskium.Core.Receipt.{PersistenceStatus, PersistenceReceipt}
use viskium.Core.Serialization.Document.{observation_document}
use viskium.Core.Serialization.Size.{canonical_bytes}
use viskium.Storage.Memory.{get, MemoryStore, refusal, accepted, known_receipt}

pub record Log : Type 0 where
  pub entries : List ObservationEnvelope
  pub closed : Bool

-- The bytes of an observation's document.
abbrev pub document_bytes : ObservationEnvelope → ℕ
document_bytes o = length (canonical_bytes (observation_document o))

-- The entry with a key, and its place, where the first has the place `n`.
unfoldable pub find : String → ℕ → List ObservationEnvelope → Option (ℕ × ObservationEnvelope)
find key n [] = none
find key n (o ∷ os) = if str_eq o.idempotency_key key then some (n, o) else find key (n + 1) os

abbrev pub place_of : Option (ℕ × ObservationEnvelope) → Option ℕ
place_of none = none
place_of (some (n, o)) = some n

abbrev pub entry_of : Option (ℕ × ObservationEnvelope) → Option ObservationEnvelope
entry_of none = none
entry_of (some (n, o)) = some o

-- A log that takes an observation whose key it does not have.
unfoldable pub log_new : ℕ → ℕ → ObservationEnvelope → Log → Log × PersistenceReceipt
log_new rows bytes o l =
    let size = document_bytes o in
    if ltb bytes size
    then (l, refusal PersistenceStatus.rejected "observation_exceeds_byte_limit" none)
    else if leb rows (length l.entries)
    then (l, refusal PersistenceStatus.rejected "count_limit_reached" none)
    else if ltb bytes (total document_bytes l.entries + size)
    then (l, refusal PersistenceStatus.rejected "byte_limit_reached" none)
    else (record l { entries = l.entries ++ o ∷ [] }, accepted (length l.entries + 1) size)

module _ (same : ObservationEnvelope → ObservationEnvelope → Bool)
    (fails : ObservationEnvelope → ℕ → Bool) (rows bytes : ℕ) where
  unfoldable pub log_found :
      ObservationEnvelope → Option (ℕ × ObservationEnvelope) → Log → Log × PersistenceReceipt
  unfolding log_new
  log_found o none l =
      if fails o bytes
      then (l, refusal PersistenceStatus.rejected "payload_not_serializable" none)
      else log_new rows bytes o l
  log_found o (some (n, existing)) l = (l, known_receipt (same existing o) (some n))

  -- What `put` does to the log, with the limits `rows` and `bytes`.
  unfoldable pub log_put : ObservationEnvelope → Log → Log × PersistenceReceipt
  unfolding log_found find
  log_put o l =
      if l.closed
      then (l, refusal PersistenceStatus.failed "store_closed" none)
      else log_found o (find o.idempotency_key 1 l.entries) l

-- The store has the log's entries, and its dicts and its counter are those of the entries.
pub record Represents (rows bytes : ℕ) (s : MemoryStore) (l : Log) : Type 0 where
  pub max_observations : s.max_observations ≡ rows
  pub max_bytes : s.max_bytes ≡ bytes
  pub entries : s.observations ≡ l.entries
  pub sequences : (key : String) → get key s.sequences_by_key ≡ place_of (find key 1 l.entries)
  pub by_key : (key : String) → get key s.observations_by_key ≡ entry_of (find key 1 l.entries)
  pub bytes_used : s.bytes_used ≡ total document_bytes l.entries
  pub closed : s.closed ≡ l.closed

-- Calls of a store or of its log.
pub data Call : Type 0 where
  puts : ObservationEnvelope → Call
  clears closes : Call

abbrev pub empty_log : Log
empty_log = record { entries = []; closed = false }

module _ (same : ObservationEnvelope → ObservationEnvelope → Bool)
    (fails : ObservationEnvelope → ℕ → Bool) (rows bytes : ℕ) where
  unfoldable pub log_apply : Call → Log → Log × Option PersistenceReceipt
  unfolding log_put
  log_apply (puts o) l = let (l', r) = log_put same fails rows bytes o l in (l', some r)
  log_apply clears l = (record l { entries = [] }, none)
  log_apply closes l = ((if l.closed then l else record { entries = []; closed = true }), none)

  -- The log after the calls, and the receipts of its puts.
  unfoldable pub log_run : List Call → Log → Log × List (Option PersistenceReceipt)
  unfolding log_apply
  log_run [] l = (l, [])
  log_run (c ∷ cs) l =
      let (l', r) = log_apply c l in let (last, rs) = log_run cs l' in (last, r ∷ rs)
