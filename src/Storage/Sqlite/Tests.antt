-- ===== src/Storage/Sqlite/Tests.antt =====
-- storage/sqlite_store.py: a store of two rows, of which one has expired.
use text.Mathlib.Text.{◌==◌ as str_eq}
use viskium.Prelude.{
  ℕ, zero, suc, ◌≡◌, refl, inl, inr, ap, String, Option, none, some, true, false, List, [], ◌∷◌,
  length, arith, if◌then◌else◌,
}
use viskium.Core.Value.{natural}
use viskium.Core.Envelope.{ObservationEnvelope, SensitivityClass, PersistenceClass}
use viskium.Core.Serialization.Document.{bounded_observation_bytes}
use viskium.Core.Serialization.{json_tokens}
use viskium.Core.Sample.{sample}
use viskium.Core.Receipt.{PersistenceStatus}
use viskium.Storage.Sqlite.Database.{
  Session, Row, Fault, ErrorCode, query, change, begin, commit, rollback, next_fault, later_faults,
}
use viskium.Storage.Sqlite.Statements.{sum_bytes, allows, has_sequence}
use viskium.Storage.Sqlite.Statements.Selected.{In}
use viskium.Storage.Sqlite.Store.{StoreState, Store, refusal}
use viskium.Storage.Sqlite.Put.{EncoderError, put}
use viskium.Storage.Sqlite.Put.Reclaim.{is_accepted}
use viskium.Storage.Sqlite.Purge.{purge_expired}
use viskium.Storage.Sqlite.Put.Effect.{put-Effect}
use viskium.Storage.Sqlite.Put.Outcomes.{is_healthy, IsGood, Effect, Asked}
use viskium.Storage.Sqlite.Opening.{no_tables, store_tables, OpenReply, opened, open_store}
use viskium.Storage.Sqlite.Opening.Arguments.{Options}
use viskium.Storage.Sqlite.Opening.Verified.{opened_run-IsGood}
use viskium.Storage.Sqlite.Opening.Counters.{IsFile}
use viskium.Storage.Sqlite.Runs.{Call, puts, purges, run, run-In}
use viskium.Storage.Sqlite.Runs.Sequences.{
  accepted_sequences, count_up, accepted_sequences-consecutive,
}
use viskium.Storage.Sqlite.Runs.Retry.{retry-coalesces}

abbrev observation : String → ObservationEnvelope
observation key = sample key 3

-- 32 bytes, as a digest has.
abbrev zeros : ℕ → List ℕ
zeros zero = []
zeros (suc n) = 0 ∷ zeros n

abbrev digest : List ℕ → List ℕ
digest xs = zeros 32

-- An encoder that raises at one observation, in place of one that has a lone surrogate.
abbrev fails : ObservationEnvelope → ℕ → Option EncoderError
fails o limit = if str_eq o.idempotency_key "d" then some EncoderError.invalid else none

abbrev row : ℕ → String → ℕ → Row
row n key expires = record {
  store_sequence = n;
  idempotency_key = key;
  session_id = "live";
  observed_monotonic_ns = 1;
  stored_unix_ns = 5;
  expires_unix_ns = expires;
  persistence_class = PersistenceClass.routine;
  sensitivity_class = SensitivityClass.operational;
  document_sha256 = zeros 32;
  logical_bytes = 2;
  document_json = 123 ∷ 125 ∷ [];
}

abbrev rows : List Row
rows = row 1 "old" 10 ∷ row 2 "new" 400 ∷ []

abbrev store_with : List (Option Fault) → Store
store_with faults = record {
  max_rows = 2;
  max_logical_bytes = 10000;
  max_observation_bytes = 5000;
  volume_reserve_bytes = 100;
  max_purge_rows = 4;
  state = StoreState.healthy;
  reason = none;
  row_count = 2;
  logical_bytes = 4;
  connected = true;
  session = record {
    committed = record {
      store_state = some (record { next_sequence = 3; row_count = 2; logical_bytes = 4 });
      rows = rows;
    };
    working = none;
    faults = faults;
  };
}

abbrev store : Store
store = store_with []

-- The expired row makes room.
put-accepted :
    (put digest fails (natural 100) (some (natural 100000)) (some (observation "k")) store).1.status
    ≡ PersistenceStatus.accepted
unfolding put bounded_observation_bytes json_tokens query change begin commit rollback next_fault
    later_faults allows
put-accepted = refl

put-invalid :
    (put digest fails (natural 100) (some (natural 100000)) (some (observation "d")) store).1
    ≡ refusal PersistenceStatus.rejected "observation_invalid" none
unfolding put
put-invalid = refl

abbrev busy : Option Fault
busy = some (record { code = ErrorCode.busy; rolls_back = false })

-- The ninth statement is the first put's COMMIT.
abbrev faults : List (Option Fault)
faults = none ∷ none ∷ none ∷ none ∷ none ∷ none ∷ none ∷ none ∷ busy ∷ []

abbrev calls : List Call
calls =
    puts (natural 100) (some (natural 100000)) (some (observation "k"))
    ∷ purges 4 (natural 120)
    ∷ puts (natural 130) (some (natural 100000)) (some (observation "k"))
    ∷ puts (natural 140) none none
    ∷ []

abbrev later : List Call
later = purges 4 (natural 120) ∷ puts (natural 130) none none ∷ []

store-IsGood : (fs : List (Option Fault)) → IsGood (store_with fs)
unfolding sum_bytes has_sequence
store-IsGood fs = record {
  sound = record {
    row = record { next_sequence = 3; row_count = 2; logical_bytes = 4 };
    state = refl;
    rows = record {
      counted = refl;
      summed = refl;
      unique = (refl, (refl, tt));
      keys = ((refl, tt), (tt, tt));
      below = (omega arith, (omega arith, tt));
    };
    within_rows = omega arith;
    within_bytes = omega arith;
  };
  idle = λ _. refl;
  rows = λ _. refl;
  bytes = λ _. refl;
}

-- After a commit that meets a lock, the same put is accepted with the next sequence.
sequences_lem : accepted_sequences digest fails calls (store_with faults) ≡ 3 ∷ []
unfolding accepted_sequences put purge_expired bounded_observation_bytes json_tokens query change
    begin commit rollback next_fault later_faults allows
sequences_lem = refl

put-Effect_example :
    Effect
      (Asked digest fails 5000 (natural 100) (some (observation "k")))
      store
      (put digest fails (natural 100) (some (natural 100000)) (some (observation "k")) store)
put-Effect_example =
    put-Effect digest fails (natural 100) (some (natural 100000)) (some (observation "k")) store
      (store-IsGood [])

abbrev options : Options
options = record {
  max_rows = natural 2;
  max_db_bytes = natural 40_000;
  max_logical_bytes = some (natural 10_000);
  max_observation_bytes = natural 5_000;
  volume_reserve_bytes = natural 100;
  busy_timeout_ms = natural 250;
  max_query_rows = natural 10;
  max_query_bytes = natural 1_000;
  max_purge_rows = natural 4;
}

rows-IsFile : IsFile store.session.committed
unfolding has_sequence
rows-IsFile = record { unique = (refl, (refl, tt)); keys = ((refl, tt), (tt, tt)) }

opened_lem : open_store options (natural 7) (store_tables true) store.session ≡ opened store
unfolding open_store query change begin commit rollback next_fault later_faults sum_bytes
opened_lem = refl

-- A file without tables.
abbrev empty_session : Session
empty_session = record {
  committed = record { store_state = none; rows = [] };
  working = none;
  faults = [];
}

reply_rows : OpenReply → Option ℕ
reply_rows (opened s) = some s.row_count
reply_rows _ = none

created_lem : reply_rows (open_store options (natural 7) no_tables empty_session) ≡ some 0
unfolding reply_rows open_store query change begin commit rollback next_fault later_faults sum_bytes
created_lem = refl

opened_run-IsGood_example : IsGood (run digest fails calls store)
opened_run-IsGood_example =
    opened_run-IsGood digest fails options (natural 7) (store_tables true) store.session store calls
      rows-IsFile refl opened_lem

run-In_example :
    In (row 2 "new" 400) (run digest fails calls (store_with faults)).session.committed.rows
run-In_example =
    run-In digest fails calls (store_with faults) (row 2 "new" 400) (store-IsGood faults)
      (inr (inl refl)) (omega arith, (omega arith, (omega arith, (omega arith, tt))))

accepted_sequences-consecutive_example :
    accepted_sequences digest fails calls (store_with faults)
    ≡ count_up 3 (length (accepted_sequences digest fails calls (store_with faults)))
accepted_sequences-consecutive_example =
    accepted_sequences-consecutive digest fails calls (store_with faults) 3 (store-IsGood faults)
      refl

clean_lem :
    (run digest fails later
      (put digest fails
        (natural 100)
        (some (natural 100000))
        (some (observation "k"))
        store).0).session.faults
    ≡ []
unfolding run put purge_expired bounded_observation_bytes json_tokens query change begin commit
    rollback next_fault later_faults allows
clean_lem = refl

live_lem :
    is_healthy
      (run digest fails later
        (put digest fails
          (natural 100)
          (some (natural 100000))
          (some (observation "k"))
          store).0).state
    ≡ true
unfolding run put purge_expired bounded_observation_bytes json_tokens query change begin commit
    rollback next_fault later_faults allows
live_lem = refl

retry-coalesces_example :
    let first =
      put digest fails (natural 100) (some (natural 100000)) (some (observation "k")) store in
    put digest fails (natural 140) none (some (observation "k")) (run digest fails later first.0)
    ≡ (
      run digest fails later first.0,
      refusal PersistenceStatus.coalesced "duplicate_idempotency_key" first.1.store_sequence,
    )
retry-coalesces_example =
    retry-coalesces digest fails (observation "k") 100 50 (some (natural 100000)) store later
      (natural 140) none (store-IsGood []) refl (ap is_accepted put-accepted)
      (omega arith, (omega arith, tt)) live_lem clean_lem
