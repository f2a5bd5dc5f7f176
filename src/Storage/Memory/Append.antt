-- ===== src/Storage/Memory/Append.antt =====
-- adapters/memory_store.py: a new observation in the store and in its log.
use text.Mathlib.Text.{◌==◌ as str_eq}
use text.Mathlib.TextEquality.{eq_iff}
use viskium.Prelude.{
  ℕ, ◌+◌, ◌≡◌, refl, ap, ◌∙◌, String, inl, inr, none, some, Bool, true, false, List, [], ◌∷◌, ◌++◌,
  arith, ltb, leb, length, length-append, total, total-append, if◌then◌else◌, Bool-cases,
}
use viskium.Core.Envelope.{ObservationEnvelope}
use viskium.Core.Receipt.{PersistenceStatus, PersistenceReceipt}
use viskium.Core.Serialization.Document.{observation_document, observation_size}
use viskium.Core.Serialization.Size.{encoders_agree}
use viskium.Storage.Memory.{Dict, get, set, MemoryStore, refusal, accepted, append, put_new}
use viskium.Storage.Memory.Log.{Log, document_bytes, find, log_new, Represents}

get-set {ℓ} :
    {A : Type ℓ} (key k : String) (v : A) (d : Dict A)
    → get key (set k v d) ≡ (if str_eq k key then some v else get key d)
unfolding get set
get-set key k v [] = refl
get-set key k v ((j, w) ∷ rest) =
    ground (arith, eq_iff j k, eq_iff k key, eq_iff j key, get-set key k v rest)

find-append :
    (key : String) (n : ℕ) (os : List ObservationEnvelope) (o : ObservationEnvelope)
    → find o.idempotency_key n os ≡ none
    → find key n (os ++ o ∷ [])
      ≡ (if str_eq o.idempotency_key key then some (n + length os, o) else find key n os)
unfolding find
find-append key n [] o h = ground arith
find-append key n (q ∷ qs) o h = ground (
  arith,
  eq_iff o.idempotency_key key,
  eq_iff q.idempotency_key key,
  eq_iff q.idempotency_key o.idempotency_key,
  find-append key (n + 1) qs o,
)

size_eq :
    (o : ObservationEnvelope) (limit : ℕ)
    → observation_size o limit
      ≡ (if leb (document_bytes o) limit then some (document_bytes o) else none)
unfolding observation_size
size_eq o limit = (encoders_agree (observation_document o) limit).1

-- Two tests that agree.
pub both :
    {A B : Type 0} (P : A → B → Type 0) (b c : Bool)
    → b ≡ c
    → {x x' : A} {y y' : B} → (b ≡ true → P x y)
    → (b ≡ false → P x' y')
    → P (if b then x else x') (if c then y else y')
both P true true e h k = h refl
both P false false e h k = k refl
both P true false e h k = absurd (ground arith)
both P false true e h k = absurd (ground arith)

abbrev pub Refines : ℕ → ℕ → MemoryStore × PersistenceReceipt → Log × PersistenceReceipt → Type 0
Refines rows bytes x y = (x.1 ≡ y.1) × Represents rows bytes x.0 y.0

module _ (rows bytes : ℕ) (o : ObservationEnvelope) (s : MemoryStore) (l : Log)
    (h : Represents rows bytes s l) (fresh : find o.idempotency_key 1 l.entries ≡ none) where
  append-Refines : Refines rows bytes (append o (document_bytes o) s) (
    record l { entries = l.entries ++ o ∷ [] },
    accepted (length l.entries + 1) (document_bytes o),
  )
  unfolding append
  append-Refines =
      let n : length (s.observations ++ o ∷ []) ≡ length l.entries + 1 =
        ap (λ os. length (os ++ o ∷ [])) h.entries ∙ length-append {0} l.entries (o ∷ []) in
      (
        ap (λ k. accepted k (document_bytes o)) n,
        record {
          max_observations = h.max_observations;
          max_bytes = h.max_bytes;
          entries = ap (λ os. os ++ o ∷ []) h.entries;
          sequences = λ key. ground (
            arith,
            get-set key o.idempotency_key (length (s.observations ++ o ∷ [])) s.sequences_by_key,
            find-append key 1 l.entries o fresh,
            h.sequences key,
            n,
          );
          by_key = λ key. ground (
            arith,
            get-set key o.idempotency_key o s.observations_by_key,
            find-append key 1 l.entries o fresh,
            h.by_key key,
          );
          bytes_used = omega (arith, h.bytes_used, total-append document_bytes l.entries (o ∷ []));
          closed = h.closed;
        },
      )

  stays-Refines : (r : PersistenceReceipt) → Refines rows bytes (s, r) (l, r)
  stays-Refines r = (refl, h)

  sized-Refines : Refines rows bytes (put_new o (some (document_bytes o)) s) (
      if leb rows (length l.entries)
      then (l, refusal PersistenceStatus.rejected "count_limit_reached" none)
      else if ltb bytes (total document_bytes l.entries + document_bytes o)
      then (l, refusal PersistenceStatus.rejected "byte_limit_reached" none)
      else (
        record l { entries = l.entries ++ o ∷ [] },
        accepted (length l.entries + 1) (document_bytes o),
      ))
  unfolding put_new
  sized-Refines =
      let size = document_bytes o in
      let n : length s.observations ≡ length l.entries = ap (λ os. length os) h.entries in
      let a = h.max_observations in
      let b = h.max_bytes in
      let c = h.bytes_used in
      elim (Bool-cases (leb rows (length l.entries))) [
        | inl full ↦
            let d : leb s.max_observations (length s.observations) ≡ true = ground arith in
            rw (d, full)
              (stays-Refines (refusal PersistenceStatus.rejected "count_limit_reached" none))
        | inr roomy ↦
            let d : leb s.max_observations (length s.observations) ≡ false = ground arith in
            elim (Bool-cases (ltb bytes (total document_bytes l.entries + size))) [
              | inl over ↦
                  let f : ltb s.max_bytes (s.bytes_used + size) ≡ true = ground arith in
                  rw (d, f, roomy, over)
                    (stays-Refines (refusal PersistenceStatus.rejected "byte_limit_reached" none))
              | inr fits ↦
                  let f : ltb s.max_bytes (s.bytes_used + size) ≡ false = ground arith in
                  rw (d, f, roomy, fits) append-Refines
            ]
      ]

  pub new-Refines :
      Refines rows bytes (put_new o (observation_size o s.max_bytes) s) (log_new rows bytes o l)
  unfolding put_new log_new
  new-Refines =
      let size = document_bytes o in
      elim (Bool-cases (ltb bytes size)) [
        | inl large ↦
            let a : leb size s.max_bytes ≡ false = ground (arith, h.max_bytes) in
            rw (size_eq o s.max_bytes, a, large)
              (stays-Refines
                (refusal PersistenceStatus.rejected "observation_exceeds_byte_limit" none))
        | inr small ↦
            let a : leb size s.max_bytes ≡ true = ground (arith, h.max_bytes) in
            rw (size_eq o s.max_bytes, a, small) (sized-Refines)
      ]
