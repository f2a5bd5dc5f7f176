-- ===== src/Storage/Sqlite/Put.antt =====
-- storage/sqlite_store.py: `SQLiteStore.put`.
pub mod Reclaim
pub mod Steps
pub mod Outcomes
pub mod Effect
pub mod Kept
pub mod Again
use viskium.Prelude.{
  ℕ, ◌+◌, ◌-◌, String, Option, none, some, Bool, true, false, not, ◌&&◌, ◌||◌, List, [], ◌∷◌, ltb,
  leb, ◌==◌, length, if◌then◌else◌,
}
use viskium.Core.Value.{Value, natural, negative, Result, ok, raise, type_error, value_error}
use viskium.Core.Envelope.{ObservationEnvelope, SensitivityClass, PersistenceClass}
use viskium.Core.Receipt.{PersistenceStatus, PersistenceReceipt}
use viskium.Core.Serialization.Document.{bounded_observation_bytes}
use viskium.Storage.Sqlite.Database.{
  Row, StateRow, Sql, pure, raise_integrity, raise_database, refuse_if, ◌>>=◌, ◌>>◌, begin, commit,
  rollback,
}
use viskium.Storage.Sqlite.Statements.{
  max_int64, same_bytes, select_duplicate, decode_duplicate, select_state, decode_store_state,
  select_expired, sum_bytes, are_candidates, delete, insert, update_state,
}
use viskium.Storage.Sqlite.Store.{
  Store, StoreState, is_closed, is_read_only, refusal, rejected, failed, latch, guarded,
}
use viskium.Storage.Sqlite.Checks.{duplicate_receipt, look_up, prevalidate, signed_int64}

-- The room in the store for a document, with the counters that it is added to.
pub data Room : Type 0 where
  no_room : String → Room
  roomy : ℕ → ℕ → Room

-- How the body of the transaction ends, if it raises nothing.
pub data Done : Type 0 where
  kept : PersistenceReceipt → Done
  exhausted : Done
  stored : ℕ → ℕ → ℕ → Done

-- The limits and the document of one call of `put`.
pub record Order : Type 0 where
  pub max_rows : ℕ
  pub max_logical_bytes : ℕ
  pub max_purge_rows : ℕ
  pub row_count : ℕ
  pub logical_bytes : ℕ
  pub observation : ObservationEnvelope
  pub document : List ℕ
  pub digest : List ℕ
  pub stored_unix_ns : ℕ
  pub expires_unix_ns : ℕ

check_room : Order → ℕ → ℕ → Room
check_room p count bytes =
    if leb p.max_rows count
    then no_room "count_limit_reached"
    else if ltb p.max_logical_bytes (bytes + length p.document)
    then no_room "logical_byte_limit_reached"
    else roomy count bytes

unfoldable pub check_deleted : ℕ → List Row → ℕ → ℕ → Sql (ℕ × ℕ)
unfolding sum_bytes
check_deleted deleted candidates count bytes =
    if deleted == length candidates
    then pure (count - length candidates, bytes - sum_bytes candidates)
    else raise_database

-- The purge of expired rows under pressure; the answer has the new counters.
unfoldable pub purge_rows : List Row → ℕ → ℕ → Sql (ℕ × ℕ)
unfolding are_candidates sum_bytes delete check_deleted
purge_rows candidates count bytes = do
  refuse_if (not (are_candidates candidates))
  refuse_if (ltb count (length candidates) || ltb bytes (sum_bytes candidates))
  deleted ← delete candidates
  check_deleted deleted candidates count bytes

reclaim : Order → List Row → ℕ → ℕ → Sql Room
unfolding purge_rows check_room
reclaim p [] count bytes = pure (check_room p count bytes)
reclaim p (r ∷ rs) count bytes = do
  left ← purge_rows (r ∷ rs) count bytes
  pure (check_room p left.0 left.1)

pub make_room : Order → ℕ → ℕ → Sql Room
unfolding select_expired reclaim
make_room p count bytes =
    if leb p.max_rows count || ltb p.max_logical_bytes (bytes + length p.document)
    then (do
      candidates ← select_expired p.stored_unix_ns p.max_purge_rows
      reclaim p candidates count bytes)
    else pure (roomy count bytes)

abbrev pub new_row : Order → ℕ → Row
new_row p sequence = record {
  store_sequence = sequence;
  idempotency_key = p.observation.idempotency_key;
  session_id = p.observation.session_id;
  observed_monotonic_ns = p.observation.observed_monotonic_ns;
  stored_unix_ns = p.stored_unix_ns;
  expires_unix_ns = p.expires_unix_ns;
  persistence_class = p.observation.persistence_class;
  sensitivity_class = p.observation.sensitivity_class;
  document_sha256 = p.digest;
  logical_bytes = length p.document;
  document_json = p.document;
}

add_row : Order → ℕ → Room → Sql Done
unfolding rollback insert update_state commit
add_row p sequence (no_room reason) = do rollback; pure (kept (rejected reason))
add_row p sequence (roomy count bytes) = do
  insert (new_row p sequence)
  updated ← update_state (record {
    next_sequence = sequence + 1;
    row_count = count + 1;
    logical_bytes = bytes + length p.document;
  })
  commit
  pure (stored sequence (count + 1) (bytes + length p.document))

-- From the counters on.
add_counted : Order → StateRow → Sql Done
unfolding rollback make_room add_row
add_counted p st =
    if st.next_sequence == max_int64
    then (do rollback; pure exhausted)
    else (do room ← make_room p st.row_count st.logical_bytes; add_row p st.next_sequence room)

-- The transaction where the key is new.
add_new : Order → Sql Done
unfolding select_state decode_store_state add_counted
add_new p = do
  row ← select_state
  st ← decode_store_state row
  refuse_if (not (st.row_count == p.row_count) || not (st.logical_bytes == p.logical_bytes))
  add_counted p st

-- From the second look-up on, within the transaction.
on_found : Order → Option (ℕ × List ℕ) → Sql Done
unfolding rollback decode_duplicate duplicate_receipt add_new
on_found p none = add_new p
on_found p (some d) = do
  rollback
  e ← decode_duplicate d
  pure (kept (duplicate_receipt p.digest e))

-- The body of the `try` of `put`.
pub transaction : Order → Sql Done
unfolding begin select_duplicate on_found
transaction p = do begin; found ← select_duplicate p.observation.idempotency_key; on_found p found

abbrev accepted : ℕ → List ℕ → PersistenceReceipt
accepted sequence document = record {
  status = PersistenceStatus.accepted;
  reason = none;
  store_sequence = some sequence;
  bytes_accepted = length document;
}

conclude : List ℕ → Done → Store → Store × PersistenceReceipt
unfolding latch
conclude document (kept receipt) s = (s, receipt)
conclude document exhausted s = latch "sequence_exhausted" s
conclude document (stored sequence count bytes) s =
    (record s { row_count = count; logical_bytes = bytes }, accepted sequence document)

abbrev pub order_of : Store → ObservationEnvelope → List ℕ → List ℕ → ℕ → ℕ → Order
order_of s o document digest now expires = record {
  max_rows = s.max_rows;
  max_logical_bytes = s.max_logical_bytes;
  max_purge_rows = s.max_purge_rows;
  row_count = s.row_count;
  logical_bytes = s.logical_bytes;
  observation = o;
  document = document;
  digest = digest;
  stored_unix_ns = now;
  expires_unix_ns = expires;
}

-- From the free space of the volume on; `none` is a provider that raises.
with_space : Option Value → Order → Store → Store × PersistenceReceipt
unfolding signed_int64 transaction conclude guarded
with_space none p s = (s, failed "volume_space_unavailable")
with_space (some free) p s = elim (signed_int64 0 free) [
  | raise _ ↦ (s, failed "volume_space_unavailable")
  | ok bytes ↦
      if ltb bytes (s.volume_reserve_bytes + length p.document)
      then (s, rejected "volume_reserve_reached")
      else guarded (transaction p) (conclude p.document) s
]

unfoldable pub expiry : Option ℕ → ℕ → Result ℕ
unfolding signed_int64
expiry none now = raise type_error
expiry (some ttl) now = signed_int64 now (natural (now + ttl))

-- From the clock on.
with_time :
    Value
    → Option Value
    → ObservationEnvelope
    → List ℕ
    → List ℕ
    → Store
    → Store × PersistenceReceipt
unfolding signed_int64 expiry with_space
with_time now free o document digest s = elim (signed_int64 0 now) [
  | raise _ ↦ (s, rejected "expiry_out_of_range")
  | ok stored_at ↦ elim (expiry o.ttl_ns stored_at) [
    | raise _ ↦ (s, rejected "expiry_out_of_range")
    | ok expires ↦ with_space free (order_of s o document digest stored_at expires) s
  ]
]

on_lookup :
    Value
    → Option Value
    → ObservationEnvelope
    → List ℕ
    → List ℕ
    → Option PersistenceReceipt
    → Store
    → Store × PersistenceReceipt
unfolding with_time
on_lookup now free o document digest (some receipt) s = (s, receipt)
on_lookup now free o document digest none s = with_time now free o document digest s

put_document :
    Value
    → Option Value
    → ObservationEnvelope
    → List ℕ
    → List ℕ
    → Store
    → Store × PersistenceReceipt
unfolding look_up guarded on_lookup
put_document now free o document digest s =
    guarded (look_up o.idempotency_key digest) (on_lookup now free o document digest) s

-- `invalid`: the encoder raises RecursionError, TypeError or ValueError, as at a lone surrogate;
-- `unexpected`: it raises another Exception.
pub data EncoderError : Type 0 where
  invalid unexpected : EncoderError

abbrev pub encoder_refusal : EncoderError → PersistenceReceipt
encoder_refusal EncoderError.invalid = rejected "observation_invalid"
encoder_refusal EncoderError.unexpected = failed "observation_serialization_failed"

-- `fails` says what Python's encoder raises, if it does, when it writes an observation's document up
-- to a limit.
module _ (sha256 : List ℕ → List ℕ) (fails : ObservationEnvelope → ℕ → Option EncoderError) where
  put_observation : Value → Option Value → ObservationEnvelope → Store → Store × PersistenceReceipt
  unfolding prevalidate put_document
  put_observation now free o s = elim (prevalidate o) [
    | some reason ↦ (s, rejected reason)
    | none ↦ elim (fails o s.max_observation_bytes) [
      | some error ↦ (s, encoder_refusal error)
      | none ↦ elim (bounded_observation_bytes o s.max_observation_bytes) [
        | none ↦ (s, rejected "observation_exceeds_byte_limit")
        | some document ↦ put_document now free o document (sha256 document) s
      ]
    ]
  ]

  put_healthy :
      Value → Option Value → Option ObservationEnvelope → Store → Store × PersistenceReceipt
  unfolding put_observation
  put_healthy now free none s = (s, rejected "observation_required")
  put_healthy now free (some o) s = put_observation now free o s

  -- `put`, where the clock reads `now` and the volume has `free` bytes; `none` stands for an object
  -- that is no ObservationEnvelope.
  unfoldable pub put :
      Value → Option Value → Option ObservationEnvelope → Store → Store × PersistenceReceipt
  unfolding put_healthy
  put now free o s =
      if is_closed s.state
      then (s, failed "store_closed")
      else if is_read_only s.state
      then (s, failed (elim s.reason [ none ↦ "store_read_only" | some reason ↦ reason ]))
      else put_healthy now free o s
