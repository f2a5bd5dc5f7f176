-- ===== src/Storage/Sqlite/Put/Steps.antt =====
-- storage/sqlite_store.py: the transaction of `put`.
use mathlib.Core.Path.{subst}
use viskium.Prelude.{
  ℕ, ◌+◌, ◌≤◌, ◌<◌, ◌≡◌, refl, sym, ap, ◌∙◌, Option, none, some, false, not, ◌||◌, List, [], ◌∷◌,
  ◌++◌, ◌==◌, arith, ltb, length, if_rule, Bool-cases, inl, inr,
}
use viskium.Core.Receipt.{PersistenceReceipt}
use viskium.Storage.Sqlite.Database.{
  Row, StateRow, Tables, Session, Sql, pure, refuse_if, begin, commit, rollback,
}
use viskium.Storage.Sqlite.Database.Triples.{
  Post, Post-bind, Post-weaken, Open, Idle, Commits, query-Open, change-Open, change-known,
  commit-Open, begin-Open, rollback-Idle, refuse_if-Post,
}
use viskium.Storage.Sqlite.Statements.{
  sum_bytes, insert, update_state, allows, without, max_int64, select_state, decode_store_state,
  select_duplicate, decode_duplicate, same_bytes,
}
use viskium.Storage.Sqlite.Statements.Selected.{Expired}
use viskium.Storage.Sqlite.Statements.Added.{Allowed, allows-Allowed}
use viskium.Storage.Sqlite.Store.{rejected}
use viskium.Storage.Sqlite.Sound.{IsCounted}
use viskium.Storage.Sqlite.Put.{
  Order, Room, no_room, roomy, Done, kept, exhausted, stored, make_room, new_row, add_row,
  add_counted, add_new, transaction, on_found,
}
use viskium.Storage.Sqlite.Checks.{duplicate_receipt}
use viskium.Storage.Sqlite.Put.Reclaim.{Added, DoneSays, RoomSays, cut, is_accepted, make_room-Says}

insert-Open :
    (c w : Tables) (r : Row) (s : Session)
    → Open c w s
    → Post
        (λ _ s'. Allowed w.rows r × Open c (record w { rows = w.rows ++ r ∷ [] }) s')
        (Commits c)
        (insert r s)
unfolding insert
insert-Open c w r s o = elim (Bool-cases (allows w.rows r)) [
  | inl y ↦
      Post-weaken _ _ (Commits c) (insert r s) (change-known c w _ tt _ s o (rw y refl))
        (λ _ s' q. (allows-Allowed w.rows r y, q.1))
  | inr n ↦
      Post-weaken _ _ (Commits c) (insert r s) (change-Open c w _ s o)
        (λ a s' q. let (t, e, _) = q in absurd (let e' = rw n at e in cc))
]

update_state-Open :
    (c w : Tables) (old st : StateRow) (s : Session)
    → w.store_state ≡ some old
    → Open c w s
    → Post (λ _ s'. Open c (record w { store_state = some st }) s') (Commits c) (update_state st s)
unfolding update_state
update_state-Open c w old st s e o =
    Post-weaken _ _ (Commits c) (update_state st s) (change-known c w _ 1 _ s o (rw e refl))
      (λ n s' q. q.1)

module _ (p : Order) (c : Tables) (st : StateRow) where
  Added-row :
      (count bytes : ℕ) (ks : List Row) (t : Tables)
      → c.store_state ≡ some st
      → Expired p.stored_unix_ns c.rows ks
      → count ≡ length (without ks c.rows)
      → bytes ≡ sum_bytes (without ks c.rows)
      → count < p.max_rows
      → bytes + length p.document ≤ p.max_logical_bytes
      → Allowed (without ks c.rows) (new_row p st.next_sequence)
      → st.next_sequence ≤ max_int64
      → t ≡ record {
        store_state = some (record {
          next_sequence = st.next_sequence + 1;
          row_count = count + 1;
          logical_bytes = bytes + length p.document;
        });
        rows = without ks c.rows ++ new_row p st.next_sequence ∷ [];
      }
      → Added p c st.next_sequence (count + 1) (bytes + length p.document) t
  Added-row count bytes ks t e0 x a b within fits allowed bound e = record {
    before = st;
    before_state = e0;
    next = refl;
    deleted = ks;
    expired = x;
    state = ap (λ (u : Tables). u.store_state) e;
    rows = ap (λ (u : Tables). u.rows) e;
    allowed = allowed;
    counted = ap (λ n. n + 1) a;
    summed = ap (λ n. n + length p.document) b;
    bounded = bound;
    within_rows = omega arith;
    within_bytes = fits;
  }

  add_row-Says :
      (room : Room) (s : Session)
      → c.store_state ≡ some st
      → st.next_sequence ≤ max_int64
      → RoomSays p c room s
      → Post (DoneSays p c) (Commits c) (add_row p st.next_sequence room s)
  unfolding add_row
  add_row-Says (no_room reason) s e bound r =
      Post-bind _ (DoneSays p c) (Commits c) rollback (λ _. pure (kept (rejected reason))) s
        (rollback-Idle c s r) (λ _ s1 q. (q, refl))
  add_row-Says (roomy count bytes) s e bound ((ks, x, a, b, o), within, fits) =
      let r = new_row p st.next_sequence in
      let R = DoneSays p c in
      let E = Commits c in
      Post-bind _ R E (insert r) _ s (insert-Open c (cut ks c) r s o) (λ _ s1 q.
        Post-bind _ R E (update_state _) _ s1
          (update_state-Open c (record c { rows = without ks c.rows ++ r ∷ [] }) st _ s1 e q.1)
          (λ _ s2 q2.
            Post-bind _ R E commit
              (λ _. pure (stored st.next_sequence (count + 1) (bytes + length p.document))) s2
              (commit-Open c _ s2 q2)
              (λ _ s3 q3.
                (q3.1, Added-row count bytes ks s3.committed e x a b within fits q.0 bound q3.0))))

  add_counted-Says :
      (s : Session)
      → IsCounted st.next_sequence st.row_count st.logical_bytes c.rows
      → c.store_state ≡ some st
      → st.next_sequence ≤ max_int64
      → Open c c s
      → Post (DoneSays p c) (Commits c) (add_counted p st s)
  unfolding add_counted
  add_counted-Says s h e bound o =
      if_rule (λ (m : Sql Done). Post (DoneSays p c) (Commits c) (m s))
        (st.next_sequence == max_int64)
        (λ _.
          Post-bind _ (DoneSays p c) (Commits c) rollback (λ _. pure exhausted) s
            (rollback-Idle c s o.0) (λ _ s1 q. q))
        (λ _.
          Post-bind _ (DoneSays p c) (Commits c) (make_room p st.row_count st.logical_bytes)
            (add_row p st.next_sequence) s
            (make_room-Says c st.next_sequence st.row_count st.logical_bytes h p s o)
            (λ room s1 q. add_row-Says room s1 e bound q))

pub some_eq : {A : Type 0} {a b : A} → some a ≡ some b → a ≡ b
some_eq e = cc

pub decode_store_state-Says :
    (Q E : Session → Type 0) (a : Option StateRow) (st : StateRow) (s : Session)
    → a ≡ some st
    → Q s
    → E s
    → Post (λ x s'. (x ≡ st) × Q s' × (x.next_sequence ≤ max_int64)) E (decode_store_state a s)
unfolding decode_store_state
decode_store_state-Says Q E none st s e q x = x
decode_store_state-Says Q E (some y) st s e q x =
    Post-bind _ (λ (x : StateRow) s'. (x ≡ st) × Q s' × (x.next_sequence ≤ max_int64)) E
      (refuse_if (
        ltb y.next_sequence 1
        || ltb max_int64 y.next_sequence
        || ltb max_int64 y.row_count
        || ltb max_int64 y.logical_bytes))
      (λ _. pure y) s (refuse_if-Post Q E _ s q x) (λ _ s1 r. (some_eq e, r.1, ground (arith, r.0)))

pub decode_duplicate-Says :
    (Q E : Session → Type 0) (d : ℕ × List ℕ) (s : Session)
    → Q s
    → E s
    → Post (λ _ s'. Q s') E (decode_duplicate d s)
unfolding decode_duplicate
decode_duplicate-Says Q E (n, digest) s q x =
    Post-bind _ (λ (_ : ℕ × List ℕ) s'. Q s') E
      (refuse_if (ltb n 1 || ltb max_int64 n || not (length digest == 32))) (λ _. pure (n, digest))
      s (refuse_if-Post Q E _ s q x) (λ _ s1 r. r.1)

pub duplicate_refused :
    (digest : List ℕ) (x : ℕ × List ℕ) → is_accepted (duplicate_receipt digest x).status ≡ false
unfolding duplicate_receipt
duplicate_refused digest (n, existing) =
    if_rule (λ (r : PersistenceReceipt). is_accepted r.status ≡ false) (same_bytes existing digest)
      (λ _. refl) (λ _. refl)

module _ (p : Order) (c : Tables) (st : StateRow)
    (h : IsCounted st.next_sequence st.row_count st.logical_bytes c.rows)
    (e : c.store_state ≡ some st) where
  add_new-Says : (s : Session) → Open c c s → Post (DoneSays p c) (Commits c) (add_new p s)
  unfolding add_new select_state
  add_new-Says s o =
      let R = DoneSays p c in
      let E = Commits c in
      Post-bind _ R E select_state _ s (query-Open c c _ s o) (λ row s1 q.
        Post-bind _ R E (decode_store_state row) _ s1
          (decode_store_state-Says (Open c c) E row st s1 (q.0 ∙ e) q.1 q.1.0)
          (λ x s2 q2.
            Post-bind _ R E
              (refuse_if
                (not (x.row_count == p.row_count) || not (x.logical_bytes == p.logical_bytes)))
              (λ _. add_counted p x) s2 (refuse_if-Post (Open c c) E _ s2 q2.1 q2.1.0)
              (λ _ s3 q3.
                let k = sym q2.0 in
                add_counted-Says p c x s3
                  (subst (λ y. IsCounted y.next_sequence y.row_count y.logical_bytes c.rows) k h)
                  (e ∙ ap some k) q2.2 q3.1)))

  on_found-Says :
      (found : Option (ℕ × List ℕ)) (s : Session)
      → Open c c s
      → Post (DoneSays p c) (Commits c) (on_found p found s)
  unfolding on_found
  on_found-Says none s o = add_new-Says s o
  on_found-Says (some d) s o =
      Post-bind _ (DoneSays p c) (Commits c) rollback _ s (rollback-Idle c s o.0) (λ _ s1 q.
        Post-bind _ (DoneSays p c) (Commits c) (decode_duplicate d)
          (λ e. pure (kept (duplicate_receipt p.digest e))) s1
          (decode_duplicate-Says (Idle c) (Commits c) d s1 q q.0)
          (λ x s2 q2. (q2, duplicate_refused p.digest x)))

  -- The transaction ends with the committed tables as they were, or with the row added.
  pub transaction-Says :
      (s : Session) → Idle c s → Post (DoneSays p c) (Commits c) (transaction p s)
  unfolding transaction select_duplicate
  transaction-Says s o =
      Post-bind _ (DoneSays p c) (Commits c) begin _ s (begin-Open c s o) (λ _ s1 o1.
        Post-bind _ (DoneSays p c) (Commits c) (select_duplicate p.observation.idempotency_key)
          (on_found p) s1 (query-Open c c _ s1 o1) (λ found s2 q. on_found-Says found s2 q.1))
