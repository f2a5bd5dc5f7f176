-- ===== src/Storage/Sqlite/Purge/Transaction.antt =====
-- storage/sqlite_store.py: the transaction of `purge_expired`.
use mathlib.Core.Path.{subst}
use viskium.Prelude.{
  ℕ, ◌≡◌, refl, sym, ap, ◌∙◌, Option, none, some, not, ◌||◌, List, [], ◌∷◌, ◌==◌, length, if_rule,
}
use viskium.Core.Receipt.{PersistenceReceipt}
use viskium.Storage.Sqlite.Database.{
  Row, StateRow, Tables, Session, Answer, value, sqlite_error, integrity_error, Sql, pure,
  refuse_if, ◌>>=◌, begin, commit, rollback,
}
use viskium.Storage.Sqlite.Database.Triples.{
  Post, Post-bind, Open, Idle, Commits, query-Open, change-known, commit-Open, begin-Open,
  rollback-Idle, refuse_if-Post,
}
use viskium.Storage.Sqlite.Statements.{
  select_state, decode_store_state, select_expired, sum_bytes, update_counts, without,
}
use viskium.Storage.Sqlite.Statements.Selected.{Expired, selected-Expired}
use viskium.Storage.Sqlite.Sound.{IsCounted}
use viskium.Storage.Sqlite.Store.{Store}
use viskium.Storage.Sqlite.Put.{purge_rows}
use viskium.Storage.Sqlite.Put.Steps.{decode_store_state-Says}
use viskium.Storage.Sqlite.Put.Reclaim.{cut, purge_rows-Purged}
use viskium.Storage.Sqlite.Purge.{
  Purged, finish_purge, purge_candidates, purge_transaction, error_of, integrity_of,
  refuse_unless_one,
}

-- The tables without some rows that have expired, and with their counters.
pub record Cut (now : ℕ) (c : Tables) (st : StateRow) (p : Purged) (t : Tables) : Type 0 where
  pub deleted : List Row
  pub expired : Expired now c.rows deleted
  pub state :
      t.store_state ≡ some (record st { row_count = p.row_count; logical_bytes = p.logical_bytes })
  pub rows : t.rows ≡ without deleted c.rows
  pub counted : p.row_count ≡ length (without deleted c.rows)
  pub summed : p.logical_bytes ≡ sum_bytes (without deleted c.rows)

abbrev pub PurgeSays : ℕ → Tables → StateRow → Option Purged → Session → Type 0
PurgeSays now c st none s = Idle c s
PurgeSays now c st (some p) s = (s.working ≡ none) × Cut now c st p s.committed

module _ (now : ℕ) (c : Tables) (st : StateRow) (e : c.store_state ≡ some st)
    (h : IsCounted st.next_sequence st.row_count st.logical_bytes c.rows) where
  finish_purge-Says :
      (ks rows : List Row) (count bytes : ℕ) (s : Session)
      → Expired now c.rows ks
      → count ≡ length (without ks c.rows)
      → bytes ≡ sum_bytes (without ks c.rows)
      → Open c (cut ks c) s
      → Post (PurgeSays now c st) (Commits c) (finish_purge rows (count, bytes) s)
  unfolding finish_purge update_counts
  finish_purge-Says ks rows count bytes s x a b o =
      let R = PurgeSays now c st in
      let E = Commits c in
      let t : Tables = record {
        store_state = some (record st { row_count = count; logical_bytes = bytes });
        rows = without ks c.rows;
      } in
      Post-bind _ R E (update_counts count bytes) _ s
        (change-known c (cut ks c) _ 1 t s o (rw e refl))
        (λ n s1 q.
          Post-bind (λ _ s'. Open c t s') R E (refuse_unless_one n) _ s1
            (if_rule (λ (m : Sql (Unit {0})). Post (λ _ s'. Open c t s') E (m s1)) (n == 1)
              (λ _. q.1) (λ _. q.1.0))
            (λ _ s2 q2.
              Post-bind _ R E commit
                (λ _. pure (
                  some (record {
                    row_count = count;
                    logical_bytes = bytes;
                    rows_deleted = length rows;
                    bytes_deleted = sum_bytes rows;
                  })))
                s2 (commit-Open c t s2 q2)
                (λ _ s3 q3. (
                  q3.1,
                  record {
                    deleted = ks;
                    expired = x;
                    state = ap (λ (u : Tables). u.store_state) q3.0;
                    rows = ap (λ (u : Tables). u.rows) q3.0;
                    counted = a;
                    summed = b;
                  },
                ))))

  purge_candidates-Says :
      (ks : List Row) (s : Session)
      → Expired now c.rows ks
      → Open c c s
      → Post (PurgeSays now c st) (Commits c) (purge_candidates ks st.row_count st.logical_bytes s)
  unfolding purge_candidates
  purge_candidates-Says [] s x o =
      Post-bind _ (PurgeSays now c st) (Commits c) rollback (λ _. pure none) s
        (rollback-Idle c s o.0) (λ _ s1 q. q)
  purge_candidates-Says (k ∷ ks) s x o =
      Post-bind _ (PurgeSays now c st) (Commits c)
        (purge_rows (k ∷ ks) st.row_count st.logical_bytes) (finish_purge (k ∷ ks)) s
        (purge_rows-Purged c st.next_sequence st.row_count st.logical_bytes h now (k ∷ ks) s x o)
        (λ left s1 q.
          let (ds, y, a, b, o1) = q in finish_purge-Says ds (k ∷ ks) left.0 left.1 s1 y a b o1)

  -- After the counters were read as `row`.
  purge_selected-Says :
      (limit : ℕ) (row : StateRow) (s : Session)
      → row ≡ st
      → Open c c s
      → Post (PurgeSays now c st) (Commits c) (
          (select_expired now limit >>= (λ ks. purge_candidates ks row.row_count row.logical_bytes))
            s)
  unfolding select_expired
  purge_selected-Says limit row s p o =
      Post-bind _ (PurgeSays now c st) (Commits c) (select_expired now limit)
        (λ ks. purge_candidates ks row.row_count row.logical_bytes) s (query-Open c c _ s o)
        (λ ks s1 q.
          let x = subst (Expired now c.rows) (sym q.0) (selected-Expired now limit c.rows) in
          subst
            (λ (y : StateRow).
              Post (PurgeSays now c st) (Commits c)
                (purge_candidates ks y.row_count y.logical_bytes s1))
            (sym p) (purge_candidates-Says ks s1 x q.1))

  pub purge_transaction-Says :
      (limit count bytes : ℕ) (s : Session)
      → Idle c s
      → Post (PurgeSays now c st) (Commits c) (purge_transaction now limit count bytes s)
  unfolding purge_transaction select_state
  purge_transaction-Says limit count bytes s o =
      let R = PurgeSays now c st in
      let E = Commits c in
      Post-bind _ R E begin _ s (begin-Open c s o) (λ _ s1 o1.
        Post-bind _ R E select_state _ s1 (query-Open c c _ s1 o1) (λ row s2 q2.
          Post-bind _ R E (decode_store_state row) _ s2
            (decode_store_state-Says (Open c c) E row st s2 (q2.0 ∙ e) q2.1 q2.1.0)
            (λ x s3 q3.
              Post-bind _ R E
                (refuse_if (not (x.row_count == count) || not (x.logical_bytes == bytes)))
                (λ _.
                  select_expired now limit
                  >>= (λ ks. purge_candidates ks x.row_count x.logical_bytes))
                s3 (refuse_if-Post (Open c c) E _ s3 q3.1 q3.1.0)
                (λ _ s4 q4. purge_selected-Says limit x s4 q3.0 q4.1))))

pub error_of-store : (x : Store × PersistenceReceipt) → (error_of x).0 ≡ x.0
unfolding error_of
error_of-store (s, r) = refl

pub integrity_of-store :
    (a : Answer (Unit {0})) (x : Store × PersistenceReceipt) → (integrity_of a x).0 ≡ x.0
unfolding integrity_of
integrity_of-store (value _) (s, r) = refl
integrity_of-store (sqlite_error _) (s, r) = refl
integrity_of-store integrity_error (s, r) = refl
