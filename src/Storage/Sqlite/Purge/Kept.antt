-- ===== src/Storage/Sqlite/Purge/Kept.antt =====
-- storage/sqlite_store.py: `purge_expired` and `close` keep a store sound.
use mathlib.Core.Path.{subst}
use viskium.Prelude.{ℕ, ◌≡◌, refl, sym, ap, ◌∙◌, none, arith, length, if_rule}
use viskium.Core.Value.{Value}
use viskium.Storage.Sqlite.Database.{
  Row, Tables, Session, Answer, value, sqlite_error, integrity_error, rollback,
}
use viskium.Storage.Sqlite.Database.Triples.{Post-weaken, Post-session, Commits, rollback-Idle}
use viskium.Storage.Sqlite.Statements.{sum_bytes}
use viskium.Storage.Sqlite.Statements.Rows.{DistinctKeys, Below}
use viskium.Storage.Sqlite.Statements.Selected.{
  In, Unique, length-without, sum-without_le, unexpired-In,
}
use viskium.Storage.Sqlite.Sound.{without-IsCounted}
use viskium.Storage.Sqlite.Store.{Store, is_closed}
use viskium.Storage.Sqlite.Put.Outcomes.{IsGood}
use viskium.Storage.Sqlite.Put.Kept.{Refused-IsGood, moved-IsSound, IsBefore}
use viskium.Storage.Sqlite.Purge.Steps.{purge_expired-Rule}
use viskium.Storage.Sqlite.Purge.Transaction.{Cut}
use viskium.Storage.Sqlite.Purge.{Purged, purge_expired, close, close_connection}

Cut-IsGood :
    (s : Store) (g : IsGood s) (now : ℕ) (p : Purged) (t : Session)
    → t.working ≡ none
    → Cut now s.session.committed g.sound.row p t.committed
    → IsGood (record s { session = t; row_count = p.row_count; logical_bytes = p.logical_bytes })
Cut-IsGood s g now p t i k =
    let st = g.sound.row in
    let c = s.session.committed in
    let h = g.sound.rows in
    let left =
      without-IsCounted st.next_sequence st.row_count st.logical_bytes c.rows k.deleted h in
    record {
      sound = record {
        row = record st { row_count = p.row_count; logical_bytes = p.logical_bytes };
        state = k.state;
        rows = record {
          counted = k.counted ∙ ap length (sym k.rows);
          summed = k.summed ∙ ap sum_bytes (sym k.rows);
          unique = subst Unique (sym k.rows) left.unique;
          keys = subst DistinctKeys (sym k.rows) left.keys;
          below = subst (Below st.next_sequence) (sym k.rows) left.below;
        };
        within_rows =
            omega
              (arith, k.counted, length-without k.deleted c.rows, h.counted, g.sound.within_rows);
        within_bytes =
            omega
              (arith, k.summed, sum-without_le k.deleted c.rows, h.summed, g.sound.within_bytes);
      };
      idle = λ _. i;
      rows = λ _. refl;
      bytes = λ _. refl;
    }

pub purge_expired-IsGood :
    (limit : ℕ) (now : Value) (s : Store) → IsGood s → IsGood (purge_expired limit now s).0
purge_expired-IsGood limit now s g =
    purge_expired-Rule IsGood limit now s g g (λ s' r h. Refused-IsGood s s' r g h)
      (λ n p t _ i c. Cut-IsGood s g n p t i c)

pub purge_expired-In :
    (limit : ℕ) (now : Value) (s : Store) (q : Row)
    → IsGood s
    → In q s.session.committed.rows
    → IsBefore now q.expires_unix_ns
    → In q (purge_expired limit now s).0.session.committed.rows
purge_expired-In limit now s q g i late =
    purge_expired-Rule (λ x. In q x.session.committed.rows) limit now s g i
      (λ s' r h. subst (λ (u : Tables). In q u.rows) (sym h.committed) i)
      (λ n p t e _ c. subst (In q) (sym c.rows) (
        unexpired-In n s.session.committed.rows c.deleted q g.sound.rows.unique c.expired i
          (subst (λ v. IsBefore v q.expires_unix_ns) e late)))

abbrev pub ClosesSoundly : Store → Store → Type 0
ClosesSoundly s s' =
    IsGood s'
    × (s'.session.committed ≡ s.session.committed)
    × (s'.max_observation_bytes ≡ s.max_observation_bytes)

close_connection-Says :
    (s : Store) (x : Answer (Unit {0}) × Session)
    → IsGood s
    → Commits s.session.committed x.1
    → ClosesSoundly s (close_connection x s)
unfolding close_connection moved-IsSound
close_connection-Says s (value _, t) g e = (
  record {
    sound = moved-IsSound g.sound refl refl e;
    idle = λ _. refl;
    rows = λ live. absurd (ground arith);
    bytes = λ live. absurd (ground arith);
  },
  e,
  refl,
)
close_connection-Says s (sqlite_error _, t) g e = (
  record {
    sound = moved-IsSound g.sound refl refl e;
    idle = λ _. refl;
    rows = g.rows;
    bytes = g.bytes;
  },
  e,
  refl,
)
close_connection-Says s (integrity_error, t) g e = (
  record {
    sound = moved-IsSound g.sound refl refl e;
    idle = λ _. refl;
    rows = g.rows;
    bytes = g.bytes;
  },
  e,
  refl,
)

rollback-Commits : (s : Session) → Commits s.committed (rollback s).1
rollback-Commits s =
    Post-session (Commits s.committed) (rollback s)
      (Post-weaken _ _ _ (rollback s) (rollback-Idle s.committed s refl) (λ _ _ i. i.0))

pub close-Says : (s : Store) → IsGood s → ClosesSoundly s (close s)
unfolding close
close-Says s g =
    if_rule (ClosesSoundly s) (is_closed s.state) (λ _. (g, refl, refl))
      (λ _.
        if_rule (ClosesSoundly s) s.connected
          (λ _. close_connection-Says s (rollback s.session) g (rollback-Commits s.session))
          (λ _. (
            record {
              sound = g.sound;
              idle = λ live. absurd (ground arith);
              rows = λ live. absurd (ground arith);
              bytes = λ live. absurd (ground arith);
            },
            refl,
            refl,
          )))
