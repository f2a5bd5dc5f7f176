-- ===== src/Storage/Sqlite/Runs/Sequences.antt =====
-- storage/sqlite_store.py: the sequences that a run of calls is given.
use mathlib.Core.Path.{subst}
use viskium.Prelude.{
  ℕ, zero, suc, ◌+◌, ◌≡◌, refl, sym, ap, ◌∙◌, inl, inr, Option, none, some, false, List, [], ◌∷◌,
  length, if◌then◌else◌,
}
use viskium.Core.Receipt.{PersistenceReceipt}
use viskium.Core.Envelope.{ObservationEnvelope}
use viskium.Storage.Sqlite.Database.{StateRow, Tables}
use viskium.Storage.Sqlite.Store.{Store}
use viskium.Storage.Sqlite.Put.{EncoderError, put, Order}
use viskium.Storage.Sqlite.Put.Reclaim.{is_accepted}
use viskium.Storage.Sqlite.Put.Effect.{put-Effect}
use viskium.Storage.Sqlite.Put.Outcomes.{IsGood, Stored}
use viskium.Storage.Sqlite.Put.Kept.{put-IsGood}
use viskium.Storage.Sqlite.Purge.{purge_expired, close}
use viskium.Storage.Sqlite.Purge.Steps.{purge_expired-Rule}
use viskium.Storage.Sqlite.Purge.Kept.{purge_expired-IsGood, close-Says}
use viskium.Storage.Sqlite.Runs.{Call, puts, purges, closes}

-- The sequence in a receipt, if it accepts.
given : PersistenceReceipt → List ℕ → List ℕ
given r ns =
    if is_accepted r.status then (elim r.store_sequence [ none ↦ ns | some n ↦ n ∷ ns ]) else ns

module _ (sha256 : List ℕ → List ℕ) (fails : ObservationEnvelope → ℕ → Option EncoderError) where
  -- The sequences that the accepting receipts of a run have, in the order of the calls.
  unfoldable pub accepted_sequences : List Call → Store → List ℕ
  unfolding given put purge_expired close
  accepted_sequences [] s = []
  accepted_sequences (puts now free o ∷ cs) s =
      let (s', r) = put sha256 fails now free o s in given r (accepted_sequences cs s')
  accepted_sequences (purges limit now ∷ cs) s = accepted_sequences cs (purge_expired limit now s).0
  accepted_sequences (closes ∷ cs) s = accepted_sequences cs (close s)

-- `k` numbers, from `n` on.
abbrev pub count_up : ℕ → ℕ → List ℕ
count_up n zero = []
count_up n (suc k) = n ∷ count_up (n + 1) k

abbrev pub HasNext : ℕ → Option StateRow → Type 0
HasNext n none = ⊥
HasNext n (some row) = row.next_sequence ≡ n

-- The sequence that the tables give next.
abbrev pub IsNext : ℕ → Tables → Type 0
IsNext n t = HasNext n t.store_state

-- Numbers in turn, from `n` on.
abbrev Consecutive : ℕ → List ℕ → Type 0
Consecutive n ns = ns ≡ count_up n (length ns)

given-refused :
    (r : PersistenceReceipt) (ns : List ℕ) → is_accepted r.status ≡ false → given r ns ≡ ns
unfolding given
given-refused r ns h = rw h refl

Stored-sequence :
    (K : Order → Type 0) (s s' : Store) (r : PersistenceReceipt) (n : ℕ)
    → IsNext n s.session.committed
    → (h : Stored K s s' r) → h.sequence ≡ n
Stored-sequence K s s' r n i h = h.added.next ∙ subst (HasNext n) h.added.before_state i

given-Stored :
    (K : Order → Type 0) (s s' : Store) (r : PersistenceReceipt) (n : ℕ) (ns : List ℕ)
    → IsNext n s.session.committed
    → Stored K s s' r
    → given r ns ≡ n ∷ ns
unfolding given
given-Stored K s s' r n ns i h =
    ap (λ x. given x ns) h.receipt ∙ ap (λ m. m ∷ ns) (Stored-sequence K s s' r n i h)

module _ (sha256 : List ℕ → List ℕ) (fails : ObservationEnvelope → ℕ → Option EncoderError) where
  -- From a sound store, whatever the calls and the failures of statements, the accepting receipts of a
  -- run have consecutive sequences, from the one that the committed tables have as the next.
  pub accepted_sequences-consecutive :
      (cs : List Call) (s : Store) (n : ℕ)
      → IsGood s
      → IsNext n s.session.committed
      → accepted_sequences sha256 fails cs s
        ≡ count_up n (length (accepted_sequences sha256 fails cs s))
  unfolding accepted_sequences
  accepted_sequences-consecutive [] s n g i = refl
  accepted_sequences-consecutive (puts now free o ∷ cs) s n g i =
      let x = put sha256 fails now free o s in
      let rest = accepted_sequences sha256 fails cs x.0 in
      let good = put-IsGood sha256 fails now free o s g in
      elim (put-Effect sha256 fails now free o s g) [
        | inl h ↦
            subst (Consecutive n) (sym (given-refused x.1 rest h.status))
              (accepted_sequences-consecutive cs x.0 n good (subst (IsNext n) (sym h.committed) i))
        | inr h ↦ subst (Consecutive n) (sym (given-Stored _ s x.0 x.1 n rest i h)) (
            ap (λ ns. n ∷ ns)
              (accepted_sequences-consecutive cs x.0 (n + 1) good (
                subst (HasNext (n + 1)) (sym h.added.state)
                  (ap (λ m. m + 1) (Stored-sequence _ s x.0 x.1 n i h)))))
      ]
  accepted_sequences-consecutive (purges limit now ∷ cs) s n g i =
      accepted_sequences-consecutive cs (purge_expired limit now s).0 n
        (purge_expired-IsGood limit now s g)
        (purge_expired-Rule (λ x. IsNext n x.session.committed) limit now s g i
          (λ s' r h. subst (IsNext n) (sym h.committed) i)
          (λ m p t _ _ c. subst (HasNext n) (sym c.state) (subst (HasNext n) g.sound.state i)))
  accepted_sequences-consecutive (closes ∷ cs) s n g i =
      let x = close-Says s g in
      accepted_sequences-consecutive cs (close s) n x.0 (subst (IsNext n) (sym x.1) i)
