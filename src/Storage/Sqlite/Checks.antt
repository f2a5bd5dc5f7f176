-- ===== src/Storage/Sqlite/Checks.antt =====
-- storage/sqlite_store.py: what `put` checks before its transaction.
use viskium.Prelude.{
  ℕ, String, Option, none, some, Bool, true, false, ◌||◌, List, ltb, if◌then◌else◌,
}
use viskium.Core.Value.{Value, natural, negative, Result, ok, raise, type_error, value_error}
use viskium.Core.Envelope.{ObservationEnvelope, SensitivityClass, PersistenceClass}
use viskium.Core.Receipt.{PersistenceStatus, PersistenceReceipt}
use viskium.Storage.Sqlite.Database.{Sql, pure, ◌>>=◌}
use viskium.Storage.Sqlite.Statements.{max_int64, same_bytes, select_duplicate, decode_duplicate}
use viskium.Storage.Sqlite.Store.{refusal}

-- `_signed_int64`, for a minimum that is not negative.
unfoldable pub signed_int64 : ℕ → Value → Result ℕ
signed_int64 minimum (natural n) =
    if ltb n minimum || ltb max_int64 n then raise value_error else ok n
signed_int64 minimum (negative n) = raise value_error
signed_int64 minimum v = raise type_error

abbrev is_prohibited : SensitivityClass → Bool
is_prohibited SensitivityClass.prohibited = true
is_prohibited _ = false

abbrev is_visual : PersistenceClass → Bool
is_visual PersistenceClass.visual = true
is_visual _ = false

-- The end of `_prevalidate_observation`, behind the checks of the other integers.
unfoldable pub prevalidate_ttl : Option ℕ → ObservationEnvelope → Option String
prevalidate_ttl none o = some "ttl_required"
prevalidate_ttl (some ttl) o =
    if ltb ttl 1 || ltb max_int64 ttl
    then some "integer_out_of_range"
    else if is_prohibited o.sensitivity_class
    then some "prohibited_content"
    else if is_visual o.persistence_class
    then some "visual_persistence_disabled"
    else none

-- `_prevalidate_observation`
unfoldable pub prevalidate : ObservationEnvelope → Option String
unfolding prevalidate_ttl
prevalidate o =
    if ltb max_int64 o.stream_epoch
      || ltb max_int64 o.source_sequence
      || ltb max_int64 o.observed_monotonic_ns
      || ltb o.schema_version 1
      || ltb max_int64 o.schema_version
    then some "integer_out_of_range"
    else prevalidate_ttl o.ttl_ns o

-- The receipt for a key that the store has.
unfoldable pub duplicate_receipt : List ℕ → ℕ × List ℕ → PersistenceReceipt
unfolding same_bytes
duplicate_receipt digest (sequence, existing) =
    if same_bytes existing digest
    then refusal PersistenceStatus.coalesced "duplicate_idempotency_key" (some sequence)
    else refusal PersistenceStatus.rejected "idempotency_conflict" (some sequence)

unfoldable pub receipt_if_found : List ℕ → Option (ℕ × List ℕ) → Sql (Option PersistenceReceipt)
unfolding decode_duplicate duplicate_receipt
receipt_if_found digest none = pure none
receipt_if_found digest (some d) = do
  e ← decode_duplicate d
  pure (some (duplicate_receipt digest e))

-- The look-up before the transaction.
unfoldable pub look_up : String → List ℕ → Sql (Option PersistenceReceipt)
unfolding select_duplicate receipt_if_found
look_up key digest = do found ← select_duplicate key; receipt_if_found digest found
