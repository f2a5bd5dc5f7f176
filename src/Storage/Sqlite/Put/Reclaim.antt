-- ===== src/Storage/Sqlite/Put/Reclaim.antt =====
-- storage/sqlite_store.py: how `put` and `purge_expired` make room.
use mathlib.Core.Path.{subst}
use viskium.Prelude.{
  ℕ, ◌+◌, ◌-◌, ◌≤◌, ◌<◌, ◌≡◌, refl, sym, ap, ◌∙◌, none, some, Bool, true, false, not, ◌||◌, List,
  [], ◌∷◌, ◌++◌, ◌==◌, arith, ltb, leb, length, if_rule,
}
use viskium.Core.Receipt.{PersistenceStatus}
use viskium.Storage.Sqlite.Database.{Row, StateRow, Tables, Session, Sql, pure, refuse_if}
use viskium.Storage.Sqlite.Database.Triples.{
  Post, Post-bind, Open, Idle, Commits, query-Open, change-known, refuse_if-Post,
}
use viskium.Storage.Sqlite.Statements.{
  select_expired, sum_bytes, are_candidates, delete, without, max_int64,
}
use viskium.Storage.Sqlite.Statements.Selected.{
  Expired, selected-Expired, length-without, sum-without, without-nil,
}
use viskium.Storage.Sqlite.Statements.Added.{Allowed}
use viskium.Storage.Sqlite.Sound.{IsCounted}
use viskium.Storage.Sqlite.Put.{
  Order, Room, no_room, roomy, Done, kept, exhausted, stored, check_room, check_deleted, purge_rows,
  reclaim, make_room, new_row,
}

abbrev pub is_accepted : PersistenceStatus → Bool
is_accepted PersistenceStatus.accepted = true
is_accepted _ = false

-- The tables after the rows `ks` were deleted.
abbrev pub cut : List Row → Tables → Tables
cut ks t = record t { rows = without ks t.rows }

-- The counters are those of the tables without some expired rows.
abbrev pub Purged : ℕ → Tables → ℕ → ℕ → Session → Type 0
Purged now c count bytes s =
    (ks : List Row) × Expired now c.rows ks
    × (count ≡ length (without ks c.rows))
    × (bytes ≡ sum_bytes (without ks c.rows))
    × Open c (cut ks c) s

-- What a store has after an accepted `put`: without some expired rows, and with one row more.
pub record Added (p : Order) (c : Tables) (sequence count bytes : ℕ) (t : Tables) : Type 0 where
  pub before : StateRow
  pub before_state : c.store_state ≡ some before
  pub next : sequence ≡ before.next_sequence
  pub deleted : List Row
  pub expired : Expired p.stored_unix_ns c.rows deleted
  pub state :
      t.store_state
      ≡ some (record { next_sequence = sequence + 1; row_count = count; logical_bytes = bytes })
  pub rows : t.rows ≡ without deleted c.rows ++ new_row p sequence ∷ []
  pub allowed : Allowed (without deleted c.rows) (new_row p sequence)
  pub counted : count ≡ length (without deleted c.rows) + 1
  pub summed : bytes ≡ sum_bytes (without deleted c.rows) + length p.document
  pub bounded : sequence ≤ max_int64
  pub within_rows : count ≤ p.max_rows
  pub within_bytes : bytes ≤ p.max_logical_bytes

abbrev pub RoomSays : Order → Tables → Room → Session → Type 0
RoomSays p c (no_room _) s = Commits c s
RoomSays p c (roomy count bytes) s =
    Purged p.stored_unix_ns c count bytes s
    × (count < p.max_rows)
    × (bytes + length p.document ≤ p.max_logical_bytes)

abbrev pub DoneSays : Order → Tables → Done → Session → Type 0
DoneSays p c (kept receipt) s = Idle c s × (is_accepted receipt.status ≡ false)
DoneSays p c exhausted s = Idle c s
DoneSays p c (stored sequence count bytes) s =
    (s.working ≡ none) × Added p c sequence count bytes s.committed

module _ (c : Tables) (next count bytes : ℕ) (h : IsCounted next count bytes c.rows) where
  delete-Open :
      (ks : List Row) (s : Session)
      → Open c c s
      → Post
          (λ n s'. (n ≡ length c.rows - length (without ks c.rows)) × Open c (cut ks c) s')
          (Commits c)
          (delete ks s)
  unfolding delete
  delete-Open ks s o = change-known c c _ _ (cut ks c) s o refl

  check_deleted-Purged :
      (now n : ℕ) (ks : List Row) (s : Session)
      → Expired now c.rows ks
      → are_candidates ks ≡ true
      → n ≡ length c.rows - length (without ks c.rows)
      → Open c (cut ks c) s
      → Post (λ p s'. Purged now c p.0 p.1 s') (Commits c) (check_deleted n ks count bytes s)
  unfolding check_deleted
  check_deleted-Purged now n ks s x d e o =
      if_rule
        (λ (m : Sql (ℕ × ℕ)). Post (λ (p : ℕ × ℕ) s'. Purged now c p.0 p.1 s') (Commits c) (m s))
        (n == length ks)
        (λ t. (
          ks,
          x,
          ground (arith, length-without ks c.rows, h.counted),
          omega (arith, sum-without now ks c.rows h.unique x d, h.summed),
          o,
        ))
        (λ _. o.0)

  pub purge_rows-Purged :
      (now : ℕ) (ks : List Row) (s : Session)
      → Expired now c.rows ks
      → Open c c s
      → Post (λ p s'. Purged now c p.0 p.1 s') (Commits c) (purge_rows ks count bytes s)
  unfolding purge_rows
  purge_rows-Purged now ks s x o =
      let R = λ (p : ℕ × ℕ) (s' : Session). Purged now c p.0 p.1 s' in
      let E = Commits c in
      Post-bind _ R E (refuse_if (not (are_candidates ks))) _ s
        (refuse_if-Post (Open c c) E _ s o o.0)
        (λ _ s1 q.
          Post-bind _ R E (refuse_if (ltb count (length ks) || ltb bytes (sum_bytes ks))) _ s1
            (refuse_if-Post (Open c c) E _ s1 q.1 q.1.0)
            (λ _ s2 p.
              Post-bind _ R E (delete ks) _ s2 (delete-Open ks s2 p.1)
                (λ n s3 d. check_deleted-Purged now n ks s3 x (ground (arith, q.0)) d.0 d.1)))

  module _ (p : Order) where
    check_room-Says :
        (n m : ℕ) (s : Session)
        → Purged p.stored_unix_ns c n m s
        → RoomSays p c (check_room p n m) s
    unfolding check_room
    check_room-Says n m s (ks, x, a, b, o) =
        if_rule (λ r. RoomSays p c r s) (leb p.max_rows n) (λ _. o.0)
          (λ e.
            if_rule (λ r. RoomSays p c r s) (ltb p.max_logical_bytes (m + length p.document))
              (λ _. o.0) (λ d. ((ks, x, a, b, o), ground arith, ground arith)))

    unpurged : (s : Session) → Open c c s → Purged p.stored_unix_ns c count bytes s
    unpurged s o =
        let e = without-nil c.rows in
        (
          [],
          tt,
          h.counted ∙ ap length (sym e),
          h.summed ∙ ap sum_bytes (sym e),
          (o.0, o.1 ∙ ap (λ l. some (record c { rows = l })) (sym e)),
        )

    reclaim-Says :
        (ks : List Row) (s : Session)
        → Expired p.stored_unix_ns c.rows ks
        → Open c c s
        → Post (RoomSays p c) (Commits c) (reclaim p ks count bytes s)
    unfolding reclaim
    reclaim-Says [] s x o = check_room-Says count bytes s (unpurged s o)
    reclaim-Says (k ∷ ks) s x o =
        Post-bind _ (RoomSays p c) (Commits c) (purge_rows (k ∷ ks) count bytes)
          (λ left. pure (check_room p left.0 left.1)) s
          (purge_rows-Purged p.stored_unix_ns (k ∷ ks) s x o)
          (λ left s1 q. check_room-Says left.0 left.1 s1 q)

    pub make_room-Says :
        (s : Session) → Open c c s → Post (RoomSays p c) (Commits c) (make_room p count bytes s)
    unfolding make_room select_expired
    make_room-Says s o =
        if_rule (λ (m : Sql Room). Post (RoomSays p c) (Commits c) (m s))
          (leb p.max_rows count || ltb p.max_logical_bytes (bytes + length p.document))
          (λ _.
            Post-bind _ (RoomSays p c) (Commits c)
              (select_expired p.stored_unix_ns p.max_purge_rows) _ s (query-Open c c _ s o)
              (λ ks s1 q.
                reclaim-Says ks s1
                  (subst (Expired p.stored_unix_ns c.rows) (sym q.0)
                    (selected-Expired p.stored_unix_ns p.max_purge_rows c.rows))
                  q.1))
          (λ e. (unpurged s o, ground arith, ground arith))
