-- ===== src/Storage/Sqlite/Put/Again.antt =====
-- storage/sqlite_store.py: a `put` of a key that the store has.
use mathlib.Core.Path.{subst}
use viskium.Prelude.{
  ℕ, ◌≤◌, ◌≡◌, refl, sym, ap, ◌∙◌, String, Option, none, some, true, false, List, [], ◌∷◌, arith,
  length, zero, suc, ◌||◌, not, ltb, ◌==◌,
}
use viskium.Core.Value.{Value}
use viskium.Core.Envelope.{ObservationEnvelope}
use viskium.Core.Receipt.{PersistenceReceipt}
use viskium.Core.Serialization.Document.{bounded_observation_bytes}
use viskium.Storage.Sqlite.Database.{
  Row, Tables, Session, value, query, tables, next_fault, later_faults, pure,
}
use viskium.Storage.Sqlite.Database.Triples.{bind-value}
use viskium.Storage.Sqlite.Statements.{
  take, find_key, select_duplicate, decode_duplicate, max_int64,
}
use viskium.Storage.Sqlite.Store.{Store, is_closed, is_read_only, on_answer, guarded}
use viskium.Storage.Sqlite.Put.{
  EncoderError, on_lookup, put_document, put_observation, put_healthy, put,
}
use viskium.Storage.Sqlite.Checks.{prevalidate, duplicate_receipt, receipt_if_found, look_up}
use viskium.Storage.Sqlite.Put.Outcomes.{is_healthy}

query-clean :
    {A : Type 0} (f : Tables → A) (s : Session)
    → s.faults ≡ []
    → query f s ≡ (value (f (tables s)), s)
unfolding query next_fault later_faults
query-clean f s h =
    subst
      (λ fs. let t : Session = record s { faults = fs } in query f t ≡ (value (f (tables t)), t))
      (sym h) refl

take-whole : (n : ℕ) (xs : List ℕ) → length xs ≤ n → take n xs ≡ xs
take-whole zero [] h = refl
take-whole (suc n) [] h = refl
take-whole zero (x ∷ xs) h = absurd (omega (arith, h))
take-whole (suc n) (x ∷ xs) h = ap (λ ys. x ∷ ys) (take-whole n xs (omega (arith, h)))

-- A row that the checks of `_decode_duplicate` let pass.
pub record Decodes (q : Row) : Type 0 where
  pub positive : 1 ≤ q.store_sequence
  pub bounded : q.store_sequence ≤ max_int64
  pub digest : length q.document_sha256 ≡ 32

decode_duplicate-known :
    (q : Row) (s : Session)
    → Decodes q
    → decode_duplicate (q.store_sequence, take 33 q.document_sha256) s
      ≡ (value (q.store_sequence, q.document_sha256), s)
unfolding decode_duplicate
decode_duplicate-known q s h =
    let t : (ltb q.store_sequence 1
          || ltb max_int64 q.store_sequence
          || not (length q.document_sha256 == 32))
        ≡ false =
      ground (arith, h.positive, h.bounded, h.digest) in
    rw (take-whole 33 q.document_sha256 (omega (arith, h.digest)), t) refl

look_up-known :
    (key : String) (digest : List ℕ) (q : Row) (s : Session)
    → s.faults ≡ []
    → find_key key (tables s).rows ≡ some q
    → Decodes q
    → look_up key digest s
      ≡ (value (some (duplicate_receipt digest (q.store_sequence, q.document_sha256))), s)
unfolding look_up select_duplicate receipt_if_found
look_up-known key digest q s clean e h =
    bind-value (select_duplicate key) (receipt_if_found digest) s
      (some (q.store_sequence, take 33 q.document_sha256)) s (query-clean _ s clean ∙ rw e refl)
    ∙ bind-value (decode_duplicate (q.store_sequence, take 33 q.document_sha256))
        (λ x. pure (some (duplicate_receipt digest x))) s (q.store_sequence, q.document_sha256) s
        (decode_duplicate-known q s h)

observation-known :
    (sha256 : List ℕ → List ℕ) (fails : ObservationEnvelope → ℕ → Option EncoderError) (now : Value)
    (free : Option Value) (o : ObservationEnvelope) (s : Store) (document : List ℕ)
    → prevalidate o ≡ none
    → fails o s.max_observation_bytes ≡ none
    → bounded_observation_bytes o s.max_observation_bytes ≡ some document
    → put_observation sha256 fails now free o s
      ≡ put_document now free o document (sha256 document) s
unfolding put_observation
observation-known sha256 fails now free o s document valid encoded fits =
    rw (put_observation, valid, encoded, fits) refl

document-known :
    (now : Value) (free : Option Value) (o : ObservationEnvelope) (document digest : List ℕ)
    (s : Store) (r : PersistenceReceipt)
    → look_up o.idempotency_key digest s.session ≡ (value (some r), s.session)
    → put_document now free o document digest s ≡ (s, r)
unfolding put_document guarded on_answer on_lookup
document-known now free o document digest s r x = rw x refl

-- Where no statement fails, a `put` of a key that a healthy store has leaves the store as it is; it is
-- coalesced with the row of the key if their documents have one digest, and rejected otherwise.
pub put-known :
    (sha256 : List ℕ → List ℕ) (fails : ObservationEnvelope → ℕ → Option EncoderError) (now : Value)
    (free : Option Value) (o : ObservationEnvelope) (s : Store) (document : List ℕ) (q : Row)
    → is_healthy s.state ≡ true
    → s.session.faults ≡ []
    → s.session.working ≡ none
    → prevalidate o ≡ none
    → fails o s.max_observation_bytes ≡ none
    → bounded_observation_bytes o s.max_observation_bytes ≡ some document
    → find_key o.idempotency_key s.session.committed.rows ≡ some q
    → Decodes q
    → put sha256 fails now free (some o) s
      ≡ (s, duplicate_receipt (sha256 document) (q.store_sequence, q.document_sha256))
unfolding put put_healthy
put-known sha256 fails now free o s document q live clean idle valid encoded fits e h =
    let open_ : is_closed s.state ≡ false = ground arith in
    let writable : is_read_only s.state ≡ false = ground arith in
    let x = look_up-known o.idempotency_key (sha256 document) q s.session clean (rw idle e) h in
    rw (open_, writable)
      (observation-known sha256 fails now free o s document valid encoded fits
        ∙ document-known now free o document (sha256 document) s _ x)
