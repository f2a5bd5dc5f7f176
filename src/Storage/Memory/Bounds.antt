-- ===== src/Storage/Memory/Bounds.antt =====
-- adapters/memory_store.py: the limits of a store.
use mathlib.Core.Path.{subst}
use viskium.Prelude.{
  ℕ, ◌+◌, ◌≤◌, ◌≡◌, sym, ap, ◌∙◌, Option, none, some, Bool, List, [], ◌∷◌, arith, ltb, leb, length,
  length-append, total, total-append, if_rule,
}
use viskium.Core.Value.{natural, ok}
use viskium.Core.Envelope.{ObservationEnvelope}
use viskium.Core.Receipt.{PersistenceReceipt}
use viskium.Storage.Memory.{MemoryStore, make_store}
use viskium.Storage.Memory.Log.{
  Log, document_bytes, find, log_new, log_found, log_put, Call, puts, clears, closes, empty_log,
  log_apply, log_run,
}
use viskium.Storage.Memory.Refinement.{run, store_refines_log}

abbrev Within : ℕ → ℕ → Log → Type 0
Within rows bytes l = (length l.entries ≤ rows) × (total document_bytes l.entries ≤ bytes)

module _ (same : ObservationEnvelope → ObservationEnvelope → Bool)
    (fails : ObservationEnvelope → ℕ → Bool) (rows bytes : ℕ) where
  new-Within :
      (o : ObservationEnvelope) (l : Log)
      → Within rows bytes l
      → Within rows bytes (log_new rows bytes o l).0
  unfolding log_new
  new-Within o l h =
      let P = λ (x : Log × PersistenceReceipt). Within rows bytes x.0 in
      let size = document_bytes o in
      if_rule P (ltb bytes size) (λ _. h)
        (λ _.
          if_rule P (leb rows (length l.entries)) (λ _. h)
            (λ full.
              if_rule P (ltb bytes (total document_bytes l.entries + size)) (λ _. h)
                (λ over. (
                  ground (arith, length-append {0} l.entries (o ∷ [])),
                  ground (arith, total-append document_bytes l.entries (o ∷ [])),
                ))))

  found-Within :
      (o : ObservationEnvelope) (f : Option (ℕ × ObservationEnvelope)) (l : Log)
      → Within rows bytes l
      → Within rows bytes (log_found same fails rows bytes o f l).0
  unfolding log_found
  found-Within o none l h =
      if_rule (λ (x : Log × PersistenceReceipt). Within rows bytes x.0) (fails o bytes) (λ _. h)
        (λ _. new-Within o l h)
  found-Within o (some (n, existing)) l h = h

  apply-Within :
      (c : Call) (l : Log)
      → Within rows bytes l
      → Within rows bytes (log_apply same fails rows bytes c l).0
  unfolding log_apply log_put
  apply-Within (puts o) l h =
      if_rule (λ (x : Log × PersistenceReceipt). Within rows bytes x.0) l.closed (λ _. h)
        (λ _. found-Within o (find o.idempotency_key 1 l.entries) l h)
  apply-Within clears l h = (omega arith, omega arith)
  apply-Within closes l h =
      if_rule (Within rows bytes) l.closed (λ _. h) (λ _. (omega arith, omega arith))

  run-Within :
      (cs : List Call) (l : Log)
      → Within rows bytes l
      → Within rows bytes (log_run same fails rows bytes cs l).0
  unfolding log_run
  run-Within [] l h = h
  run-Within (c ∷ cs) l h =
      run-Within cs (log_apply same fails rows bytes c l).0 (apply-Within c l h)

-- After any calls, a store that was made with two limits has no more observations than the one, and
-- the bytes that it counts are those of its observations' documents and within the other.
pub store_within_limits :
    (same : ObservationEnvelope → ObservationEnvelope → Bool)
    (fails : ObservationEnvelope → ℕ → Bool) (rows bytes : ℕ) (s : MemoryStore) (cs : List Call)
    → make_store (natural rows) (natural bytes) ≡ ok s
    → (length (run same fails rows bytes cs s).0.observations ≤ rows)
      × ((run same fails rows bytes cs s).0.bytes_used
          ≡ total document_bytes (run same fails rows bytes cs s).0.observations)
      × ((run same fails rows bytes cs s).0.bytes_used ≤ bytes)
store_within_limits same fails rows bytes s cs e =
    let (_, a, b) = store_refines_log same fails rows bytes s cs e in
    let w = run-Within same fails rows bytes cs empty_log (omega arith, omega arith) in
    (
      subst (λ os. length os ≤ rows) (sym a) w.0,
      b ∙ ap (λ os. total document_bytes os) (sym a),
      subst (λ n. n ≤ bytes) (sym b) w.1,
    )
