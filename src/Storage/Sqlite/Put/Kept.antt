-- ===== src/Storage/Sqlite/Put/Kept.antt =====
-- storage/sqlite_store.py: a `put` keeps a store sound, and the rows that have not expired.
use mathlib.Core.Path.{subst}
use viskium.Prelude.{
  ℕ, ◌+◌, ◌<◌, ◌≡◌, refl, sym, ap, ◌∙◌, inl, inr, Option, some, List, [], ◌∷◌, ◌++◌, arith,
  length-append,
}
use viskium.Core.Value.{Value, natural}
use viskium.Core.Envelope.{ObservationEnvelope}
use viskium.Core.Receipt.{PersistenceReceipt}
use viskium.Storage.Sqlite.Database.{Row, StateRow, Tables}
use viskium.Storage.Sqlite.Statements.{without}
use viskium.Storage.Sqlite.Statements.Rows.{without-DistinctKeys, without-Below}
use viskium.Storage.Sqlite.Statements.Selected.{In, without-Unique, unexpired-In}
use viskium.Storage.Sqlite.Statements.Added.{
  find_key-Absent, DistinctKeys-append, Unique-append, Below-append, sum-append, In-append,
}
use viskium.Storage.Sqlite.Store.{Store}
use viskium.Storage.Sqlite.Sound.{IsCounted, IsSound}
use viskium.Storage.Sqlite.Put.{EncoderError, Order, new_row, put}
use viskium.Storage.Sqlite.Put.Steps.{some_eq}
use viskium.Storage.Sqlite.Put.Reclaim.{Added}
use viskium.Storage.Sqlite.Put.Effect.{put-Effect}
use viskium.Storage.Sqlite.Put.Outcomes.{IsGood, Refused, Stored}

unfoldable pub moved-IsSound :
    {n n' m m' : ℕ} {t t' : Tables} → IsSound n m t → n' ≡ n → m' ≡ m → t' ≡ t → IsSound n' m' t'
moved-IsSound {n} {n'} {m} {m'} {t} {t'} h a b e = record {
  row = h.row;
  state = ap (λ (u : Tables). u.store_state) e ∙ h.state;
  rows =
      subst (IsCounted h.row.next_sequence h.row.row_count h.row.logical_bytes)
        (sym (ap (λ (u : Tables). u.rows) e)) h.rows;
  within_rows = omega (arith, h.within_rows);
  within_bytes = omega (arith, h.within_bytes);
}

pub Refused-IsGood : (s s' : Store) (r : PersistenceReceipt) → IsGood s → Refused s s' r → IsGood s'
unfolding moved-IsSound
Refused-IsGood s s' r g h = record {
  sound = moved-IsSound g.sound h.max_rows h.max_logical_bytes h.committed;
  idle = h.idle;
  rows = λ live. h.row_count ∙ g.rows (h.health live);
  bytes = λ live. h.logical_bytes ∙ g.bytes (h.health live);
}

module _ (p : Order) (c : Tables) (sequence count bytes : ℕ) (t : Tables)
    (a : Added p c sequence count bytes t) where
  -- The next sequence is the one of the sound tables.
  next_row : (st : StateRow) → c.store_state ≡ some st → sequence ≡ st.next_sequence
  next_row st e =
      let q : a.before ≡ st = some_eq (sym a.before_state ∙ e) in
      a.next ∙ ap (λ (x : StateRow). x.next_sequence) q

  added-IsCounted :
      (st : StateRow)
      → c.store_state ≡ some st
      → IsCounted st.next_sequence st.row_count st.logical_bytes c.rows
      → IsCounted (sequence + 1) count bytes (without a.deleted c.rows ++ new_row p sequence ∷ [])
  added-IsCounted st e h =
      let left = without a.deleted c.rows in
      let r = new_row p sequence in
      record {
        counted = omega (arith, a.counted, length-append {0} left (r ∷ []));
        summed = omega (arith, a.summed, sum-append left r);
        unique =
            Unique-append left r (without-Unique a.deleted c.rows h.unique) a.allowed.new_sequence;
        keys =
            DistinctKeys-append left r (without-DistinctKeys a.deleted c.rows h.keys)
              (find_key-Absent r.idempotency_key left a.allowed.new_key);
        below =
            Below-append st.next_sequence (sequence + 1) left r (omega (arith, next_row st e))
              (without-Below st.next_sequence a.deleted c.rows h.below) (omega arith);
      }

  added-IsSound : (n m : ℕ) → IsSound n m c → IsSound p.max_rows p.max_logical_bytes t
  added-IsSound n m h = record {
    row = record { next_sequence = sequence + 1; row_count = count; logical_bytes = bytes };
    state = a.state;
    rows =
        subst (IsCounted (sequence + 1) count bytes) (sym a.rows)
          (added-IsCounted h.row h.state h.rows);
    within_rows = a.within_rows;
    within_bytes = a.within_bytes;
  }

Stored-IsGood :
    (K : Order → Type 0) (s s' : Store) (r : PersistenceReceipt)
    → IsGood s
    → Stored K s s' r
    → IsGood s'
unfolding moved-IsSound added-IsSound
Stored-IsGood K s s' r g h = record {
  sound =
      moved-IsSound
        (added-IsSound h.order s.session.committed h.sequence s'.row_count s'.logical_bytes
          s'.session.committed h.added s.max_rows s.max_logical_bytes g.sound)
        (sym h.order_rows) (sym h.order_bytes) refl;
  idle = λ _. h.idle;
  rows = λ _. refl;
  bytes = λ _. refl;
}

pub put-IsGood :
    (sha256 : List ℕ → List ℕ) (fails : ObservationEnvelope → ℕ → Option EncoderError) (now : Value)
    (free : Option Value) (o : Option ObservationEnvelope) (s : Store)
    → IsGood s
    → IsGood (put sha256 fails now free o s).0
put-IsGood sha256 fails now free o s g = elim (put-Effect sha256 fails now free o s g) [
  | inl h ↦ Refused-IsGood s _ _ g h
  | inr h ↦ Stored-IsGood _ s _ _ g h
]

-- A reading of the clock that comes before the time `n`, if it is one.
abbrev pub IsBefore : Value → ℕ → Type 0
IsBefore (natural m) n = m < n
IsBefore _ n = Unit {0}

-- A `put` deletes no row that has not expired at the time that the clock reads.
pub put-In :
    (sha256 : List ℕ → List ℕ) (fails : ObservationEnvelope → ℕ → Option EncoderError) (now : Value)
    (free : Option Value) (o : Option ObservationEnvelope) (s : Store) (q : Row)
    → IsGood s
    → In q s.session.committed.rows
    → IsBefore now q.expires_unix_ns
    → In q (put sha256 fails now free o s).0.session.committed.rows
put-In sha256 fails now free o s q g i late = elim (put-Effect sha256 fails now free o s g) [
  | inl h ↦ subst (λ (t : Tables). In q t.rows) (sym h.committed) i
  | inr h ↦
      let a = h.added in
      let e = subst (λ v. IsBefore v q.expires_unix_ns) h.asked.time late in
      subst (In q) (sym a.rows) (
        In-append q (without a.deleted s.session.committed.rows) (new_row h.order h.sequence) (
          unexpired-In h.order.stored_unix_ns s.session.committed.rows a.deleted q
            g.sound.rows.unique a.expired i e))
]
