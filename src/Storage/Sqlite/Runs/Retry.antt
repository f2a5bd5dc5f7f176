-- ===== src/Storage/Sqlite/Runs/Retry.antt =====
-- storage/sqlite_store.py: a `put` that is tried again.
use mathlib.Core.Path.{subst}
use text.Mathlib.Text.{◌==◌ as str_eq}
use text.Mathlib.TextEquality.{eq_iff}
use viskium.Prelude.{
  ℕ, ◌+◌, ◌≡◌, refl, sym, ap, ◌∙◌, String, inl, inr, Option, some, true, false, List, [], ◌∷◌,
  arith,
}
use viskium.Core.Value.{Value, natural, ok}
use viskium.Core.Envelope.{ObservationEnvelope}
use viskium.Core.Receipt.{PersistenceStatus, PersistenceReceipt}
use viskium.Core.Serialization.Document.{bounded_observation_bytes}
use viskium.Storage.Sqlite.Database.{Row}
use viskium.Storage.Sqlite.Statements.{same_bytes, find_key}
use viskium.Storage.Sqlite.Statements.Rows.{Absent, DistinctKeys}
use viskium.Storage.Sqlite.Statements.Selected.{In}
use viskium.Storage.Sqlite.Statements.Added.{In-last, str_eq_sym}
use viskium.Storage.Sqlite.Store.{Store, refusal}
use viskium.Storage.Sqlite.Put.{EncoderError, new_row, put, expiry}
use viskium.Storage.Sqlite.Checks.{signed_int64, duplicate_receipt}
use viskium.Storage.Sqlite.Put.Steps.{some_eq}
use viskium.Storage.Sqlite.Put.Reclaim.{is_accepted}
use viskium.Storage.Sqlite.Put.Effect.{put-Effect}
use viskium.Storage.Sqlite.Put.Outcomes.{is_healthy, IsGood, Stored, Asked}
use viskium.Storage.Sqlite.Put.Kept.{put-IsGood}
use viskium.Storage.Sqlite.Put.Again.{put-known}
use viskium.Storage.Sqlite.Purge.Steps.{purge_expired-Rule}
use viskium.Storage.Sqlite.Purge.Kept.{close-Says}
use viskium.Storage.Sqlite.Runs.{
  Call, puts, purges, closes, apply, run, apply-IsGood, run-IsGood, CallsBefore, run-In,
}

Absent-not-In :
    (key : String) (rows : List Row) (q : Row)
    → Absent key rows
    → In q rows
    → str_eq q.idempotency_key key ≡ false
Absent-not-In key [] q a i = absurd i
Absent-not-In key (r ∷ rs) q a (inl e) =
    subst (λ (x : Row). str_eq x.idempotency_key key ≡ false) (sym e) a.0
Absent-not-In key (r ∷ rs) q a (inr i) = Absent-not-In key rs q a.1 i

-- A row is found by its key, where keys are distinct.
find_key-In :
    (rows : List Row) (q : Row)
    → DistinctKeys rows
    → In q rows
    → find_key q.idempotency_key rows ≡ some q
unfolding find_key
find_key-In [] q d i = absurd i
find_key-In (r ∷ rs) q d (inl e) = rw e (ground (arith, eq_iff r.idempotency_key r.idempotency_key))
find_key-In (r ∷ rs) q d (inr i) =
    let n =
      str_eq_sym q.idempotency_key r.idempotency_key (Absent-not-In r.idempotency_key rs q d.0 i) in
    rw n (find_key-In rs q d.1 i)

same_bytes_refl : (xs : List ℕ) → same_bytes xs xs ≡ true
unfolding same_bytes
same_bytes_refl [] = refl
same_bytes_refl (x ∷ xs) = ground (arith, same_bytes_refl xs)

duplicate_same :
    (digest : List ℕ) (n : ℕ)
    → duplicate_receipt digest (n, digest)
      ≡ refusal PersistenceStatus.coalesced "duplicate_idempotency_key" (some n)
unfolding duplicate_receipt
duplicate_same digest n = rw (same_bytes_refl digest) refl

expiry_sum : (ttl t n : ℕ) → expiry (some ttl) t ≡ ok n → n ≡ t + ttl
unfolding expiry signed_int64
expiry_sum ttl t n h = ground arith

module _ (sha256 : List ℕ → List ℕ) (fails : ObservationEnvelope → ℕ → Option EncoderError) where
  apply-limit :
      (c : Call) (s : Store)
      → IsGood s
      → (apply sha256 fails c s).max_observation_bytes ≡ s.max_observation_bytes
  unfolding apply
  apply-limit (puts now free o) s g = elim (put-Effect sha256 fails now free o s g) [
    | inl h ↦ h.limit
    | inr h ↦ h.limit
  ]
  apply-limit (purges limit now) s g =
      purge_expired-Rule (λ x. x.max_observation_bytes ≡ s.max_observation_bytes) limit now s g refl
        (λ s' r h. h.limit) (λ n p t _ _ c. refl)
  apply-limit closes s g = (close-Says s g).2

  run-limit :
      (cs : List Call) (s : Store)
      → IsGood s
      → (run sha256 fails cs s).max_observation_bytes ≡ s.max_observation_bytes
  unfolding run
  run-limit [] s g = refl
  run-limit (c ∷ cs) s g =
      run-limit cs (apply sha256 fails c s) (apply-IsGood sha256 fails c s g) ∙ apply-limit c s g

  module _ (o : ObservationEnvelope) (t ttl : ℕ) (s s1 : Store) (r : PersistenceReceipt)
      (h : Stored (Asked sha256 fails s.max_observation_bytes (natural t) (some o)) s s1 r) where
    stored_row : Row
    stored_row = new_row h.order h.sequence

    stored_row-In : In stored_row s1.session.committed.rows
    unfolding stored_row
    stored_row-In = subst (In stored_row) (sym h.added.rows) (In-last _ stored_row)

    stored_row-expires : o.ttl_ns ≡ some ttl → stored_row.expires_unix_ns ≡ t + ttl
    unfolding stored_row
    stored_row-expires e =
        let q : o ≡ h.order.observation = some_eq h.asked.observation in
        let b : natural t ≡ natural h.order.stored_unix_ns = h.asked.time in
        let c : t ≡ h.order.stored_unix_ns = cc in
        expiry_sum ttl t h.order.expires_unix_ns (rw (sym e, c) (rw q h.asked.lasts))

    stored_row-coalesces :
        (now : Value) (free : Option Value) (s2 : Store)
        → IsGood s2
        → In stored_row s2.session.committed.rows
        → s2.max_observation_bytes ≡ s.max_observation_bytes
        → is_healthy s2.state ≡ true
        → s2.session.faults ≡ []
        → put sha256 fails now free (some o) s2
          ≡ (s2, refusal PersistenceStatus.coalesced "duplicate_idempotency_key" (some h.sequence))
    unfolding stored_row
    stored_row-coalesces now free s2 g i e live clean =
        let p = h.order in
        let known =
          put-known sha256 fails now free p.observation s2 p.document stored_row live clean
            (g.idle live) h.asked.valid (ap (fails p.observation) e ∙ h.asked.encoded)
            (ap (bounded_observation_bytes p.observation) e ∙ h.asked.document)
            (find_key-In s2.session.committed.rows stored_row g.sound.rows.keys i)
            (record {
              positive = h.added.allowed.positive;
              bounded = h.added.bounded;
              digest = h.added.allowed.digest;
            }) in
        ap (λ x. put sha256 fails now free x s2) h.asked.observation
        ∙ known
        ∙ ap (λ d. (s2, duplicate_receipt d (h.sequence, p.digest))) (sym h.asked.digest)
        ∙ ap (λ r. (s2, r)) (duplicate_same p.digest h.sequence)

  -- An observation that a sound store accepted at the time `t` is coalesced when it is put again,
  -- after any calls that read the clock before its expiry `t + ttl`, if the store is healthy then and
  -- no more statement fails; the receipt has the sequence of the first, and the store does not change.
  pub retry-coalesces :
      (o : ObservationEnvelope) (t ttl : ℕ) (free : Option Value) (s : Store) (cs : List Call)
      (now : Value) (free_later : Option Value)
      → IsGood s
      → o.ttl_ns ≡ some ttl
      → is_accepted (put sha256 fails (natural t) free (some o) s).1.status ≡ true
      → CallsBefore (t + ttl) cs
      → is_healthy (run sha256 fails cs (put sha256 fails (natural t) free (some o) s).0).state
        ≡ true
      → (run sha256 fails cs (put sha256 fails (natural t) free (some o) s).0).session.faults ≡ []
      → put sha256 fails now free_later
          (some o)
          (run sha256 fails cs (put sha256 fails (natural t) free (some o) s).0)
        ≡ (
          run sha256 fails cs (put sha256 fails (natural t) free (some o) s).0,
          refusal PersistenceStatus.coalesced "duplicate_idempotency_key"
              (put sha256 fails (natural t) free (some o) s).1.store_sequence,
        )
  retry-coalesces o t ttl free s cs now free_later g e accepted before live clean =
      let x = put sha256 fails (natural t) free (some o) s in
      let s2 = run sha256 fails cs x.0 in
      let g1 = put-IsGood sha256 fails (natural t) free (some o) s g in
      elim (put-Effect sha256 fails (natural t) free (some o) s g) [
        | inl h ↦ absurd (ground (arith, h.status, accepted))
        | inr h ↦
            stored_row-coalesces o t ttl s x.0 x.1 h now free_later s2
              (run-IsGood sha256 fails cs x.0 g1)
              (run-In sha256 fails cs x.0 (stored_row o t ttl s x.0 x.1 h) g1
                (stored_row-In o t ttl s x.0 x.1 h)
                (subst (λ n. CallsBefore n cs) (sym (stored_row-expires o t ttl s x.0 x.1 h e))
                  before))
              (run-limit cs x.0 g1 ∙ h.limit) live clean
            ∙ ap
                (λ (r : PersistenceReceipt). (
                  s2,
                  refusal PersistenceStatus.coalesced "duplicate_idempotency_key" r.store_sequence,
                ))
                (sym h.receipt)
      ]
