-- ===== src/Storage/Sqlite/Purge/Steps.antt =====
-- storage/sqlite_store.py: what `purge_expired` does to the committed tables.
use mathlib.Core.Path.{subst}
use viskium.Prelude.{
  ℕ, ◌≡◌, refl, sym, Option, none, some, true, not, ◌||◌, ◌==◌, arith, if_rule, ltb,
}
use viskium.Core.Value.{Value, natural, Error, value_error, Result, ok, raise}
use viskium.Core.Receipt.{PersistenceReceipt}
use viskium.Storage.Sqlite.Database.{
  Session, Answer, value, sqlite_error, integrity_error, rollback,
}
use viskium.Storage.Sqlite.Database.Triples.{Post, Commits}
use viskium.Storage.Sqlite.Store.{
  Store, failed, is_closed, is_read_only, handle_write_error, handle_record_integrity_error,
}
use viskium.Storage.Sqlite.Checks.{signed_int64}
use viskium.Storage.Sqlite.Put.Effect.{
  refused, write_error-Refused, integrity_error-Refused, signed_natural,
}
use viskium.Storage.Sqlite.Put.Outcomes.{is_healthy, IsGood, Refused}
use viskium.Storage.Sqlite.Purge.{
  PurgeReply, Purged, purge_transaction, on_purge, purge_expired, closed_error, read_only_error,
  invalid,
}
use viskium.Storage.Sqlite.Purge.Transaction.{
  Cut, PurgeSays, error_of-store, integrity_of-store, purge_transaction-Says,
}

module _ (s : Store) (g : IsGood s) (live : is_healthy s.state ≡ true) (P : Store → Type 0)
    (stays : (s' : Store) (r : PersistenceReceipt) → Refused s s' r → P s') where
  on_purge-Rule :
      (now : ℕ) (x : Answer (Option Purged) × Session)
      → ((p : Purged) (t : Session)
          → t.working ≡ none
          → Cut now s.session.committed g.sound.row p t.committed
          → P (record s { session = t; row_count = p.row_count; logical_bytes = p.logical_bytes }))
      → Post (PurgeSays now s.session.committed g.sound.row) (Commits s.session.committed) x
      → P (on_purge x.0 (record s { session = x.1 })).0
  unfolding on_purge
  on_purge-Rule now (value none, t) k h =
      stays _ (failed "") (refused (λ _. Unit) s live t (failed "") h refl)
  on_purge-Rule now (value (some p), t) k h = k p t h.0 h.1
  on_purge-Rule now (sqlite_error code, t) k h =
      let y = handle_write_error code (record s { session = t }) in
      subst P (sym (error_of-store y))
        (stays y.0 y.1 (write_error-Refused (λ _. Unit) s live code t h))
  on_purge-Rule now (integrity_error, t) k h =
      let y = handle_record_integrity_error (record s { session = t }) in
      subst P (sym (integrity_of-store (rollback t).0 y))
        (stays y.0 y.1 (integrity_error-Refused (λ _. Unit) s live t h))

signed_rule :
    {B : Type 0} (P : B → Type 0) (r : Result ℕ) (f : Error → B) (g : ℕ → B)
    → ((e : Error) → P (f e))
    → ((n : ℕ) → r ≡ ok n → P (g n))
    → P (elim r [ raise e ↦ f e | ok n ↦ g n ])
signed_rule P (raise e) f g h k = h e
signed_rule P (ok n) f g h k = k n refl

-- A purge refuses, or it runs the transaction at the time that the clock reads.
purge_rule :
    (P : Store × PurgeReply → Type 0) (limit : ℕ) (now : Value) (s : Store)
    → ((r : PurgeReply) → P (s, r))
    → ((n : ℕ)
        → is_healthy s.state ≡ true
        → now ≡ natural n
        → let (answer, session) = purge_transaction n limit s.row_count s.logical_bytes s.session in
          P (on_purge answer (record s { session = session })))
    → P (purge_expired limit now s)
unfolding purge_expired
purge_rule P limit now s h k =
    if_rule P (not s.connected || is_closed s.state) (λ _. h closed_error)
      (λ unclosed.
        if_rule P (is_read_only s.state) (λ _. h read_only_error)
          (λ writable.
            if_rule P (limit == 0 || ltb s.max_purge_rows limit) (λ _. h (invalid value_error))
              (λ _.
                signed_rule P (signed_int64 0 now) _ _ (λ e. h (invalid e))
                  (λ n e. k n (ground arith) (signed_natural 0 n now e)))))

transaction-Says :
    (s : Store) (g : IsGood s) (n limit : ℕ)
    → is_healthy s.state ≡ true
    → Post
        (PurgeSays n s.session.committed g.sound.row)
        (Commits s.session.committed)
        (purge_transaction n limit s.row_count s.logical_bytes s.session)
transaction-Says s g n limit live =
    purge_transaction-Says n s.session.committed g.sound.row g.sound.state g.sound.rows limit
      s.row_count s.logical_bytes s.session (refl, g.idle live)

-- A purge leaves a good store as it is, or changes no table of it, or deletes expired rows.
pub purge_expired-Rule :
    (P : Store → Type 0) (limit : ℕ) (now : Value) (s : Store) (g : IsGood s)
    → P s
    → ((s' : Store) (r : PersistenceReceipt) → Refused s s' r → P s')
    → ((n : ℕ) (p : Purged) (t : Session)
        → now ≡ natural n
        → t.working ≡ none
        → Cut n s.session.committed g.sound.row p t.committed
        → P (record s { session = t; row_count = p.row_count; logical_bytes = p.logical_bytes }))
    → P (purge_expired limit now s).0
purge_expired-Rule P limit now s g same stays cuts =
    purge_rule (λ x. P x.0) limit now s (λ _. same)
      (λ n live e.
        on_purge-Rule s g live P stays n
          (purge_transaction n limit s.row_count s.logical_bytes s.session)
          (λ p t i c. cuts n p t e i c) (transaction-Says s g n limit live))
