-- ===== src/Storage/Sqlite/Opening/Counters.antt =====
-- storage/sqlite_store.py: what `_load_and_verify_counters` lets pass.
use mathlib.Core.Path.{subst}
use viskium.Prelude.{
  ℕ, ◌≤◌, ◌<◌, ◌≡◌, refl, sym, Option, none, some, Bool, true, false, not, ◌||◌, List, [], ◌∷◌,
  arith, length, ltb, leb, ◌==◌,
}
use viskium.Storage.Sqlite.Database.{Row, StateRow, Tables, Session, pure, refuse_if, ◌>>◌, query}
use viskium.Storage.Sqlite.Database.Triples.{Post, Post-bind, Idle, Commits, query-Idle}
use viskium.Storage.Sqlite.Statements.{select_state, sum_bytes}
use viskium.Storage.Sqlite.Statements.Rows.{DistinctKeys, Below}
use viskium.Storage.Sqlite.Statements.Selected.{Unique}
use viskium.Storage.Sqlite.Opening.{
  max_sequence, verify_counters, verify_found, load_counters, is_out_of_range,
}
use viskium.Storage.Sqlite.Opening.Arguments.{Limits}

-- What SQLite keeps of the tables in a file: PRIMARY KEY and UNIQUE.
pub record IsFile (t : Tables) : Type 0 where
  pub unique : Unique t.rows
  pub keys : DistinctKeys t.rows

pub max_sequence-Below : (n : ℕ) (rows : List Row) → max_sequence rows < n → Below n rows
unfolding max_sequence
max_sequence-Below n [] h = tt
max_sequence-Below n (r ∷ rs) h = (omega (arith, h), max_sequence-Below n rs (omega (arith, h)))

-- What the counters of a store are, once they were verified.
pub record Verified (limits : Limits) (c : Tables) (counters : ℕ × ℕ) : Type 0 where
  pub row : StateRow
  pub state : c.store_state ≡ some row
  pub row_count : counters.0 ≡ row.row_count
  pub logical_bytes : counters.1 ≡ row.logical_bytes
  pub counted : row.row_count ≡ length c.rows
  pub summed : row.logical_bytes ≡ sum_bytes c.rows
  pub unused : max_sequence c.rows < row.next_sequence
  pub within_rows : row.row_count ≤ limits.max_rows
  pub within_bytes : row.logical_bytes ≤ limits.max_logical_bytes

abbrev pub LoadSays : Limits → Tables → ℕ × ℕ → Session → Type 0
LoadSays limits c counters s = Idle c s × Verified limits c counters

-- Checks that let the code pass.
four_checks :
    {B : Type 0} (R : B → Session → Type 0) (c : Tables) (a : B) (s : Session) (x y z w : Bool)
    → Idle c s
    → (x ≡ false → y ≡ false → z ≡ false → w ≡ false → R a s)
    → Post R
        (Commits c)
        ((refuse_if x >> (refuse_if y >> (refuse_if z >> (refuse_if w >> pure a)))) s)
four_checks R c a s true y z w i h = i.0
four_checks R c a s false true z w i h = i.0
four_checks R c a s false false true w i h = i.0
four_checks R c a s false false false true i h = i.0
four_checks R c a s false false false false i h = h refl refl refl refl

module _ (limits : Limits) (c : Tables) where
  verify_counters-Says :
      (st : StateRow) (s : Session)
      → c.store_state ≡ some st
      → Idle c s
      → Post (LoadSays limits c) (Commits c) (verify_counters limits st c.rows s)
  unfolding verify_counters
  verify_counters-Says st s e i =
      four_checks (LoadSays limits c) c (st.row_count, st.logical_bytes) s
        (is_out_of_range st c.rows)
        (not (st.row_count == length c.rows) || not (st.logical_bytes == sum_bytes c.rows))
        (leb st.next_sequence (max_sequence c.rows))
        (ltb limits.max_rows st.row_count || ltb limits.max_logical_bytes st.logical_bytes) i
        (λ _ same later within. (
          i,
          record {
            row = st;
            state = e;
            row_count = refl;
            logical_bytes = refl;
            counted = ground (arith, same);
            summed = ground (arith, same);
            unused = ground (arith, later);
            within_rows = ground (arith, within);
            within_bytes = ground (arith, within);
          },
        ))

  verify_found-Says :
      (found : Option StateRow) (rows : List Row) (s : Session)
      → found ≡ c.store_state
      → rows ≡ c.rows
      → Idle c s
      → Post (LoadSays limits c) (Commits c) (verify_found limits found rows s)
  unfolding verify_found
  verify_found-Says none rows s e d i = i.0
  verify_found-Says (some st) rows s e d i =
      subst (λ rs. Post (LoadSays limits c) (Commits c) (verify_counters limits st rs s)) (sym d)
        (verify_counters-Says st s (sym e) i)

  pub load_counters-Says :
      (s : Session) → Idle c s → Post (LoadSays limits c) (Commits c) (load_counters limits s)
  unfolding load_counters select_state
  load_counters-Says s i =
      let R = LoadSays limits c in
      let E = Commits c in
      Post-bind _ R E select_state _ s (query-Idle c _ s i) (λ state s1 q1.
        Post-bind _ R E (query (λ t. t.rows)) (verify_found limits state) s1
          (query-Idle c _ s1 q1.1) (λ rows s2 q2. verify_found-Says state rows s2 q1.0 q2.0 q2.1))
