-- ===== src/Storage/Sqlite/Put/Effect.antt =====
-- storage/sqlite_store.py: what `put` does to the committed tables.
use viskium.Prelude.{
  ℕ, ◌+◌, ◌≡◌, refl, inl, inr, String, Option, none, some, true, false, List, arith, ltb, length,
  if_rule,
}
use viskium.Core.Value.{Value, natural, ok}
use viskium.Core.Envelope.{ObservationEnvelope}
use viskium.Core.Receipt.{PersistenceReceipt}
use viskium.Core.Serialization.Document.{bounded_observation_bytes}
use viskium.Storage.Sqlite.Database.{
  Session, Answer, value, sqlite_error, integrity_error, Sql, rollback, ErrorCode,
}
use viskium.Storage.Sqlite.Database.Triples.{Post, Idle, Commits, rollback-Idle}
use viskium.Storage.Sqlite.Store.{
  Store, is_closed, is_read_only, rejected, failed, latch_read_only, latch, on_code, after_rollback,
  handle_write_error, handle_record_integrity_error, on_answer, guarded,
}
use viskium.Storage.Sqlite.Sound.{IsSound}
use viskium.Storage.Sqlite.Put.{
  EncoderError, encoder_refusal, Order, Done, kept, exhausted, stored, transaction, conclude,
  order_of, with_space, expiry, with_time, on_lookup, put_document, put_observation, put_healthy,
  put,
}
use viskium.Storage.Sqlite.Checks.{signed_int64, prevalidate, look_up}
use viskium.Storage.Sqlite.Put.Steps.{transaction-Says}
use viskium.Storage.Sqlite.Put.Reclaim.{is_accepted, DoneSays}
use viskium.Storage.Sqlite.Put.Outcomes.{
  Asked, Effect, IsGood, LookupSays, Refused, is_healthy, look_up-Says, option_rule, result_rule,
}

module _ (K : Order → Type 0) (s : Store) (live : is_healthy s.state ≡ true) where
  pub refused :
      (session : Session) (r : PersistenceReceipt)
      → Idle s.session.committed session
      → is_accepted r.status ≡ false
      → Refused s (record s { session = session }) r
  refused session r i e = record {
    committed = i.0;
    status = e;
    idle = λ _. i.1;
    health = λ _. live;
    row_count = refl;
    logical_bytes = refl;
    limit = refl;
    max_rows = refl;
    max_logical_bytes = refl;
  }

  latched :
      (session : Session) (reason : String)
      → Commits s.session.committed session
      → let x = latch reason (record s { session = session }) in Refused s x.0 x.1
  unfolding latch latch_read_only
  latched session reason i = ground arith

  on_code-Refused :
      (code : ErrorCode) (session : Session)
      → Idle s.session.committed session
      → let x = on_code code (record s { session = session }) in Refused s x.0 x.1
  unfolding on_code
  on_code-Refused ErrorCode.full session i = latched session "sqlite_full" i.0
  on_code-Refused ErrorCode.ioerr session i = latched session "sqlite_io_error" i.0
  on_code-Refused ErrorCode.corrupt session i = latched session "sqlite_corrupt" i.0
  on_code-Refused ErrorCode.notadb session i = latched session "sqlite_corrupt" i.0
  on_code-Refused ErrorCode.readonly session i = latched session "sqlite_read_only" i.0
  on_code-Refused ErrorCode.cantopen session i = latched session "sqlite_read_only" i.0
  on_code-Refused ErrorCode.busy session i = refused session (failed "sqlite_busy") i refl
  on_code-Refused ErrorCode.locked session i = refused session (failed "sqlite_busy") i refl
  on_code-Refused ErrorCode.other session i = latched session "sqlite_database_error" i.0

  after_rollback-Refused :
      (k : Store → Store × PersistenceReceipt) (x : Answer (Unit {0}) × Session)
      → Post (λ _ s'. Idle s.session.committed s') (Commits s.session.committed) x
      → ((t : Session)
          → Idle s.session.committed t
          → let y = k (record s { session = t }) in Refused s y.0 y.1)
      → let y = after_rollback k x.0 (record s { session = x.1 }) in Refused s y.0 y.1
  unfolding after_rollback
  after_rollback-Refused k (value _, t) i h = h t i
  after_rollback-Refused k (sqlite_error _, t) i h = latched t "rollback_failed" i
  after_rollback-Refused k (integrity_error, t) i h = latched t "rollback_failed" i

  pub write_error-Refused :
      (code : ErrorCode) (t : Session)
      → Commits s.session.committed t
      → let y = handle_write_error code (record s { session = t }) in Refused s y.0 y.1
  unfolding handle_write_error
  write_error-Refused code t i =
      after_rollback-Refused (on_code code) (rollback t) (rollback-Idle s.session.committed t i)
        (on_code-Refused code)

  pub integrity_error-Refused :
      (t : Session)
      → Commits s.session.committed t
      → let y = handle_record_integrity_error (record s { session = t }) in Refused s y.0 y.1
  unfolding handle_record_integrity_error
  integrity_error-Refused t i =
      after_rollback-Refused (latch "record_integrity_error") (rollback t)
        (rollback-Idle s.session.committed t i) (λ u j. latched u "record_integrity_error" j.0)

  on_answer-Effect :
      {A : Type 0} (Q : A → Session → Type 0) (k : A → Store → Store × PersistenceReceipt)
      (x : Answer A × Session)
      → Post Q (Commits s.session.committed) x
      → ((a : A) (t : Session) → Q a t → Effect K s (k a (record s { session = t })))
      → Effect K s (on_answer k x.0 (record s { session = x.1 }))
  unfolding on_answer
  on_answer-Effect Q k (value a, t) i h = h a t i
  on_answer-Effect Q k (sqlite_error code, t) i h = inl (write_error-Refused code t i)
  on_answer-Effect Q k (integrity_error, t) i h = inl (integrity_error-Refused t i)

  guarded-Effect :
      {A : Type 0} (Q : A → Session → Type 0) (m : Sql A)
      (k : A → Store → Store × PersistenceReceipt) (t : Session)
      → Post Q (Commits s.session.committed) (m t)
      → ((a : A) (u : Session) → Q a u → Effect K s (k a (record s { session = u })))
      → Effect K s (guarded m k (record s { session = t }))
  unfolding guarded
  guarded-Effect Q m k t i h = on_answer-Effect Q k (m t) i h

  conclude-Effect :
      (p : Order) (d : Done) (t : Session)
      → K p
      → p.max_rows ≡ s.max_rows
      → p.max_logical_bytes ≡ s.max_logical_bytes
      → DoneSays p s.session.committed d t
      → Effect K s (conclude p.document d (record s { session = t }))
  unfolding conclude
  conclude-Effect p (kept receipt) t k a b h = inl (refused t receipt h.0 h.1)
  conclude-Effect p exhausted t k a b h = inl (latched t "sequence_exhausted" h.0)
  conclude-Effect p (stored sequence count bytes) t k a b h = inr (record {
    order = p;
    asked = k;
    sequence = sequence;
    added = h.1;
    receipt = refl;
    idle = h.0;
    state = refl;
    limit = refl;
    order_rows = a;
    order_bytes = b;
  })

  module _ (good : IsSound s.max_rows s.max_logical_bytes s.session.committed) where
    with_space-Effect :
        (free : Option Value) (p : Order) (t : Session)
        → K p
        → p.max_rows ≡ s.max_rows
        → p.max_logical_bytes ≡ s.max_logical_bytes
        → Idle s.session.committed t
        → Effect K s (with_space free p (record s { session = t }))
    unfolding with_space
    with_space-Effect none p t k a b i = inl (refused t (failed "volume_space_unavailable") i refl)
    with_space-Effect (some free) p t k a b i =
        result_rule (Effect K s) (signed_int64 0 free) _ _
          (λ bytes _.
            if_rule (Effect K s) (ltb bytes (s.volume_reserve_bytes + length p.document))
              (λ _. inl (refused t (rejected "volume_reserve_reached") i refl))
              (λ _.
                guarded-Effect (DoneSays p s.session.committed) (transaction p)
                  (conclude p.document) t
                  (transaction-Says p s.session.committed good.row good.rows good.state t i)
                  (λ d u h. conclude-Effect p d u k a b h)))
          (inl (refused t (failed "volume_space_unavailable") i refl))

    module _ (now : Value) (free : Option Value) (o : ObservationEnvelope)
        (document digest : List ℕ)
        (asks : (stored_at expires : ℕ)
          → signed_int64 0 now ≡ ok stored_at
          → expiry o.ttl_ns stored_at ≡ ok expires
          → K (order_of s o document digest stored_at expires)) where
      with_time-Effect :
          (t : Session)
          → Idle s.session.committed t
          → Effect K s (with_time now free o document digest (record s { session = t }))
      unfolding with_time
      with_time-Effect t i =
          let late = inl (refused t (rejected "expiry_out_of_range") i refl) in
          result_rule (Effect K s) (signed_int64 0 now) _ _
            (λ stored_at e.
              result_rule (Effect K s) (expiry o.ttl_ns stored_at) _ _
                (λ expires d.
                  with_space-Effect free (order_of s o document digest stored_at expires) t
                    (asks stored_at expires e d) refl refl i)
                late)
            late

      on_lookup-Effect :
          (found : Option PersistenceReceipt) (t : Session)
          → LookupSays s.session.committed found t
          → Effect K s (on_lookup now free o document digest found (record s { session = t }))
      unfolding on_lookup
      on_lookup-Effect none t i = with_time-Effect t i
      on_lookup-Effect (some receipt) t i = inl (refused t receipt i.0 i.1)

      put_document-Effect :
          s.session.working ≡ none → Effect K s (put_document now free o document digest s)
      unfolding put_document
      put_document-Effect i =
          guarded-Effect (LookupSays s.session.committed) (look_up o.idempotency_key digest)
            (on_lookup now free o document digest) s.session
            (look_up-Says s.session.committed o.idempotency_key digest s.session (refl, i))
            on_lookup-Effect

pub signed_natural : (minimum n : ℕ) (v : Value) → signed_int64 minimum v ≡ ok n → v ≡ natural n
unfolding signed_int64
signed_natural minimum n (natural m) h = ground arith
signed_natural minimum n _ h = absurd (ground arith)

encoder_refusal-status : (error : EncoderError) → is_accepted (encoder_refusal error).status ≡ false
encoder_refusal-status EncoderError.invalid = refl
encoder_refusal-status EncoderError.unexpected = refl

module _ (sha256 : List ℕ → List ℕ) (fails : ObservationEnvelope → ℕ → Option EncoderError)
    (now : Value) (free : Option Value) (s : Store) (live : is_healthy s.state ≡ true)
    (good : IsSound s.max_rows s.max_logical_bytes s.session.committed)
    (idle : s.session.working ≡ none) where
  put_healthy-Effect :
      (o : Option ObservationEnvelope)
      → Effect
          (Asked sha256 fails s.max_observation_bytes now o)
          s
          (put_healthy sha256 fails now free o s)
  unfolding put_healthy put_observation
  put_healthy-Effect none =
      let K = Asked sha256 fails s.max_observation_bytes now none in
      inl (refused K s live s.session (rejected "observation_required") (refl, idle) refl)
  put_healthy-Effect (some o) =
      let K = Asked sha256 fails s.max_observation_bytes now (some o) in
      let P = Effect K s in
      option_rule P (prevalidate o) _ _
        (λ reason _. inl (refused K s live s.session (rejected reason) (refl, idle) refl))
        (λ valid.
          option_rule P (fails o s.max_observation_bytes) _ _
            (λ error _. inl (
              refused K s live s.session (encoder_refusal error) (refl, idle)
                (encoder_refusal-status error)))
            (λ encoded.
              option_rule P (bounded_observation_bytes o s.max_observation_bytes) _ _
                (λ document e.
                  put_document-Effect K s live good now free o document (sha256 document)
                    (λ stored_at expires d x. record {
                      observation = refl;
                      valid = valid;
                      encoded = encoded;
                      document = e;
                      digest = refl;
                      time = signed_natural 0 stored_at now d;
                      lasts = x;
                    })
                    idle)
                (λ _. inl (
                  refused K s live s.session (rejected "observation_exceeds_byte_limit")
                    (refl, idle) refl))))

unmoved :
    (s : Store) (reason : String)
    → (is_healthy s.state ≡ true → s.session.working ≡ none)
    → Refused s s (failed reason)
unmoved s reason h = record {
  committed = refl;
  status = refl;
  idle = h;
  health = λ e. e;
  row_count = refl;
  logical_bytes = refl;
  limit = refl;
  max_rows = refl;
  max_logical_bytes = refl;
}

-- Whatever statement fails, a `put` of a sound store either stores nothing, and leaves the committed
-- tables and the counters as they were, or stores one row under a new sequence and a new key, after
-- deleting none but expired rows, and its receipt has that sequence and the size of the document.
pub put-Effect :
    (sha256 : List ℕ → List ℕ) (fails : ObservationEnvelope → ℕ → Option EncoderError) (now : Value)
    (free : Option Value) (o : Option ObservationEnvelope) (s : Store)
    → IsGood s
    → Effect (Asked sha256 fails s.max_observation_bytes now o) s (put sha256 fails now free o s)
unfolding put
put-Effect sha256 fails now free o s h =
    let P = Effect (Asked sha256 fails s.max_observation_bytes now o) s in
    if_rule P (is_closed s.state) (λ _. inl (unmoved s "store_closed" h.idle))
      (λ unclosed.
        if_rule P (is_read_only s.state) (λ _. inl (unmoved s _ h.idle))
          (λ writable.
            let live : is_healthy s.state ≡ true = ground arith in
            put_healthy-Effect sha256 fails now free s live h.sound (h.idle live) o))
