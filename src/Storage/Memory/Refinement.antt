-- ===== src/Storage/Memory/Refinement.antt =====
-- adapters/memory_store.py: the store refines its log.
use mathlib.Core.Path.{subst}
use viskium.Prelude.{
  ℕ, zero, suc, ◌≡◌, refl, sym, ap, ◌∙◌, Option, none, some, Bool, true, false, List, [], ◌∷◌,
  arith, total,
}
use viskium.Core.Value.{natural, ok}
use viskium.Core.Envelope.{ObservationEnvelope}
use viskium.Core.Receipt.{PersistenceReceipt}
use viskium.Storage.Memory.{
  get, MemoryStore, make_store, known_receipt, put_looked_up, put, clear, close,
}
use viskium.Storage.Memory.Log.{
  Log, document_bytes, find, place_of, entry_of, log_found, log_put, Represents, Call, puts, clears,
  closes, empty_log, log_apply, log_run,
}
use viskium.Storage.Memory.Append.{Refines, both, new-Refines}

module _ (same : ObservationEnvelope → ObservationEnvelope → Bool)
    (fails : ObservationEnvelope → ℕ → Bool) (rows bytes : ℕ) where
  looked_up-Refines :
      (o : ObservationEnvelope) (s : MemoryStore) (l : Log) (f : Option (ℕ × ObservationEnvelope))
      → Represents rows bytes s l
      → find o.idempotency_key 1 l.entries ≡ f
      → Refines rows bytes
          (put_looked_up same fails o (entry_of f) s)
          (log_found same fails rows bytes o f l)
  unfolding put_looked_up log_found
  looked_up-Refines o s l none h e =
      both (Refines rows bytes) (fails o s.max_bytes) (fails o bytes)
        (ap (λ n. fails o n) h.max_bytes) (λ _. (refl, h)) (λ _. new-Refines rows bytes o s l h e)
  looked_up-Refines o s l (some (n, existing)) h e =
      (ap (known_receipt (same existing o)) (h.sequences o.idempotency_key ∙ ap place_of e), h)

  put-Refines :
      (o : ObservationEnvelope) (s : MemoryStore) (l : Log)
      → Represents rows bytes s l
      → Refines rows bytes (put same fails o s) (log_put same fails rows bytes o l)
  unfolding put log_put
  put-Refines o s l h =
      both (Refines rows bytes) s.closed l.closed h.closed (λ _. (refl, h))
        (λ _.
          subst
            (λ e.
              Refines rows bytes (put_looked_up same fails o e s)
                (log_found same fails rows bytes o (find o.idempotency_key 1 l.entries) l))
            (sym (h.by_key o.idempotency_key))
            (looked_up-Refines o s l (find o.idempotency_key 1 l.entries) h refl))

  -- What a call does to the store.
  unfoldable pub apply : Call → MemoryStore → MemoryStore × Option PersistenceReceipt
  unfolding put clear close
  apply (puts o) s = let (s', r) = put same fails o s in (s', some r)
  apply clears s = (clear s, none)
  apply closes s = (close s, none)

  unfoldable pub run : List Call → MemoryStore → MemoryStore × List (Option PersistenceReceipt)
  unfolding apply
  run [] s = (s, [])
  run (c ∷ cs) s = let (s', r) = apply c s in let (last, rs) = run cs s' in (last, r ∷ rs)

  clear-Represents :
      (s : MemoryStore) (l : Log)
      → Represents rows bytes s l
      → Represents rows bytes (clear s) (record l { entries = [] })
  unfolding clear get find
  clear-Represents s l h = record {
    max_observations = h.max_observations;
    max_bytes = h.max_bytes;
    entries = refl;
    sequences = λ key. refl;
    by_key = λ key. refl;
    bytes_used = refl;
    closed = h.closed;
  }

  shut-Represents :
      (s : MemoryStore) (l : Log)
      → Represents rows bytes s l
      → Represents rows bytes
          (record (clear s) { closed = true })
          (record l { closed = true; entries = [] })
  shut-Represents s l h =
      let k = clear-Represents s l h in
      record {
        max_observations = k.max_observations;
        max_bytes = k.max_bytes;
        entries = k.entries;
        sequences = k.sequences;
        by_key = k.by_key;
        bytes_used = k.bytes_used;
        closed = refl;
      }

  RefinesCall : MemoryStore × Option PersistenceReceipt → Log × Option PersistenceReceipt → Type 0
  RefinesCall x y = (x.1 ≡ y.1) × Represents rows bytes x.0 y.0

  apply-Refines :
      (c : Call) (s : MemoryStore) (l : Log)
      → Represents rows bytes s l
      → RefinesCall (apply c s) (log_apply same fails rows bytes c l)
  unfolding RefinesCall apply log_apply close
  apply-Refines (puts o) s l h = let (e, k) = put-Refines o s l h in (ap some e, k)
  apply-Refines clears s l h = (refl, clear-Represents s l h)
  apply-Refines closes s l h = (
    refl,
    both (Represents rows bytes) s.closed l.closed h.closed (λ _. h) (λ _. shut-Represents s l h),
  )

  run-Represents :
      (cs : List Call) (s : MemoryStore) (l : Log)
      → Represents rows bytes s l
      → ((run cs s).1 ≡ (log_run same fails rows bytes cs l).1)
        × Represents rows bytes (run cs s).0 (log_run same fails rows bytes cs l).0
  unfolding run log_run RefinesCall
  run-Represents [] s l h = (refl, h)
  run-Represents (c ∷ cs) s l h =
      let (e, k) = apply-Refines c s l h in
      let (es, ks) = run-Represents cs (apply c s).0 (log_apply same fails rows bytes c l).0 k in
      ((λ i. e i ∷ es i), ks)

made-Represents :
    (rows bytes : ℕ) (s : MemoryStore)
    → make_store (natural rows) (natural bytes) ≡ ok s
    → Represents rows bytes s empty_log
unfolding make_store get find
made-Represents zero bytes s e = absurd (ground arith)
made-Represents (suc r) zero s e = absurd (ground arith)
made-Represents (suc r) (suc b) s e =
    let t : MemoryStore = record {
      max_observations = suc r;
      max_bytes = suc b;
      observations = [];
      sequences_by_key = [];
      observations_by_key = [];
      bytes_used = 0;
      closed = false;
    } in
    let q : t ≡ s = cc in
    subst (λ x. Represents (suc r) (suc b) x empty_log) q
      (record {
        max_observations = refl;
        max_bytes = refl;
        entries = refl;
        sequences = λ key. refl;
        by_key = λ key. refl;
        bytes_used = refl;
        closed = refl;
      })

-- From its construction on, and whichever observations the encoder fails on, a store answers every
-- sequence of put, clear and close as its log does, a list of observations that looks a key up in the
-- whole list, adds up all the documents, only grows by a put and is emptied by clear and close; and
-- it has the log's observations and their bytes at the end.
pub store_refines_log :
    (same : ObservationEnvelope → ObservationEnvelope → Bool)
    (fails : ObservationEnvelope → ℕ → Bool) (rows bytes : ℕ) (s : MemoryStore) (cs : List Call)
    → make_store (natural rows) (natural bytes) ≡ ok s
    → ((run same fails rows bytes cs s).1 ≡ (log_run same fails rows bytes cs empty_log).1)
      × ((run same fails rows bytes cs s).0.observations
          ≡ (log_run same fails rows bytes cs empty_log).0.entries)
      × ((run same fails rows bytes cs s).0.bytes_used
          ≡ total document_bytes (log_run same fails rows bytes cs empty_log).0.entries)
store_refines_log same fails rows bytes s cs e =
    let (a, h) =
      run-Represents same fails rows bytes cs s empty_log (made-Represents rows bytes s e) in
    (a, h.entries, h.bytes_used)
