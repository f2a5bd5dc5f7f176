-- ===== src/Storage/Sqlite/Opening/Verified.antt =====
-- storage/sqlite_store.py: a store that opens is sound.
use mathlib.Core.Path.{subst}
use viskium.Prelude.{Option, ℕ, ◌≡◌, refl, sym, ap, ◌∙◌, none, some, Bool, not, List}
use viskium.Core.Value.{
  Value, Error, type_error, value_error, key_error, overflow_error, Result, ok, raise,
}
use viskium.Core.Envelope.{ObservationEnvelope}
use viskium.Storage.Sqlite.Put.{EncoderError}
use viskium.Storage.Sqlite.Database.{
  begin, commit, Tables, Session, Answer, value, sqlite_error, integrity_error, Sql, refuse_if,
  ◌>>◌, query,
}
use viskium.Storage.Sqlite.Database.Triples.{
  Post, Post-bind, Post-weaken, Open, Idle, Commits, query-Idle, change-known, commit-Open,
  begin-Open, refuse_if-Post,
}
use viskium.Storage.Sqlite.Statements.Rows.{DistinctKeys}
use viskium.Storage.Sqlite.Statements.Selected.{Unique}
use viskium.Storage.Sqlite.Sound.{IsCounted}
use viskium.Storage.Sqlite.Store.{Store}
use viskium.Storage.Sqlite.Checks.{signed_int64}
use viskium.Storage.Sqlite.Put.Outcomes.{IsGood}
use viskium.Storage.Sqlite.Runs.{Call, run, run-IsGood}
use viskium.Storage.Sqlite.Opening.{
  Found, no_tables, other_tables, store_tables, OpenReply, opened, store_error, invalid,
  create_object, insert_state, create_tables, raise_after, create_schema, load_counters,
  verify_schema, store_of, reply, open_found, on_names, open_store,
}
use viskium.Storage.Sqlite.Opening.Arguments.{Options, Limits, check_options}
use viskium.Storage.Sqlite.Opening.Counters.{
  IsFile, LoadSays, Verified, load_counters-Says, max_sequence-Below,
}

-- Nothing is known after an error.
abbrev Lost : Session → Type 0
Lost s = Unit {0}

Post-forget :
    {A : Type 0} (Q : A → Session → Type 0) (E : Session → Type 0) (x : Answer A × Session)
    → Post Q E x
    → Post Q Lost x
Post-forget Q E (value a, s) h = h
Post-forget Q E (sqlite_error _, s) h = tt
Post-forget Q E (integrity_error, s) h = tt

abbrev created : Tables → Tables
created c = record c {
  store_state = some (record { next_sequence = 1; row_count = 0; logical_bytes = 0 });
}

create_object-Open :
    (c : Tables) (s : Session)
    → Open c c s
    → Post (λ _ s'. Open c c s') (Commits c) (create_object s)
unfolding create_object
create_object-Open c s o =
    Post-weaken _ _ (Commits c) (create_object s) (change-known c c _ tt c s o refl) (λ _ s' q. q.1)

create_tables-Says :
    (c : Tables) (s : Session)
    → Idle c s
    → Post (λ _ s'. Idle (created c) s') (Commits c) (create_tables s)
unfolding create_tables insert_state
create_tables-Says c s i =
    let R = λ (_ : Unit {0}) (t : Session). Idle (created c) t in
    let E = Commits c in
    let d =
      λ (k : Sql (Unit {0})) (t : Session) (o : Open c c t)
          (h : (u : Session) → Open c c u → Post R E (k u)).
        Post-bind _ R E create_object (λ _. k) t (create_object-Open c t o) (λ _ u q. h u q) in
    Post-bind _ R E begin _ s (begin-Open c s i) (λ _ s0 o0. d _ s0 o0 (λ s1 o1. d _ s1 o1 (λ s2 o2.
      d _ s2 o2 (λ s3 o3. d _ s3 o3 (λ s4 o4. d _ s4 o4 (λ s5 o5. d _ s5 o5 (λ s6 o6.
        Post-bind _ R E insert_state (λ _. commit) s6 (change-known c c _ tt (created c) s6 o6 refl)
          (λ _ s7 q. commit-Open c (created c) s7 q.1))))))))

raise_after-Says :
    (Q E : Session → Type 0) (x : Answer (Unit {0}) × Session)
    → Post (λ _ s. Q s) E x
    → Post (λ _ s. Q s) Lost (raise_after x.0 x.1)
unfolding raise_after
raise_after-Says Q E (value tt, s) h = h
raise_after-Says Q E (sqlite_error code, s) h = tt
raise_after-Says Q E (integrity_error, s) h = tt

abbrev IsOpened : OpenReply → Type 0
IsOpened (opened s) = IsGood s
IsOpened store_error = Unit {0}
IsOpened (invalid e) = Unit {0}

store_of-IsGood :
    (limits : Limits) (c : Tables) (counters : ℕ × ℕ) (s : Session)
    → Unique c.rows
    → DistinctKeys c.rows
    → Idle c s
    → Verified limits c counters
    → IsGood (store_of limits counters s)
unfolding store_of
store_of-IsGood limits c counters s u d i v = record {
  sound = record {
    row = v.row;
    state = ap (λ (t : Tables). t.store_state) i.0 ∙ v.state;
    rows =
        subst
          (λ (t : Tables). IsCounted v.row.next_sequence v.row.row_count v.row.logical_bytes t.rows)
          (sym i.0)
          (record {
            counted = v.counted;
            summed = v.summed;
            unique = u;
            keys = d;
            below = max_sequence-Below v.row.next_sequence c.rows v.unused;
          });
    within_rows = v.within_rows;
    within_bytes = v.within_bytes;
  };
  idle = λ _. i.1;
  rows = λ _. v.row_count;
  bytes = λ _. v.logical_bytes;
}

reply-Says :
    (limits : Limits) (c : Tables) (x : Answer (ℕ × ℕ) × Session)
    → Unique c.rows
    → DistinctKeys c.rows
    → Post (LoadSays limits c) Lost x
    → IsOpened (reply limits x)
unfolding reply
reply-Says limits c (value counters, s) u d h = store_of-IsGood limits c counters s u d h.0 h.1
reply-Says limits c (sqlite_error _, s) u d h = tt
reply-Says limits c (integrity_error, s) u d h = tt

opens_found :
    (limits : Limits) (c : Tables) (supported : Bool) (s : Session)
    → Idle c s
    → Post (LoadSays limits c) (Commits c) ((verify_schema supported >> load_counters limits) s)
unfolding verify_schema
opens_found limits c supported s i =
    Post-bind (λ _ s'. Idle c s') (LoadSays limits c) (Commits c) (verify_schema supported)
      (λ _. load_counters limits) s
      (Post-bind _ (λ _ s'. Idle c s') (Commits c) (query (λ _. supported))
        (λ found. refuse_if (not found)) s (query-Idle c (λ _. supported) s i)
        (λ found s1 q.
          Post-weaken _ _ (Commits c) (refuse_if (not found) s1)
            (refuse_if-Post (Idle c) (Commits c) (not found) s1 q.1 q.1.0) (λ _ _ r. r.1)))
      (λ _ s2 j. load_counters-Says limits c s2 j)

opens_new :
    (limits : Limits) (c : Tables) (s : Session)
    → Idle c s
    → Post (LoadSays limits (created c)) Lost ((create_schema >> load_counters limits) s)
unfolding create_schema
opens_new limits c s i =
    Post-bind _ (LoadSays limits (created c)) Lost create_schema (λ _. load_counters limits) s
      (raise_after-Says (Idle (created c)) (Commits c) (create_tables s) (create_tables-Says c s i))
      (λ _ s1 j.
        Post-forget (LoadSays limits (created c)) (Commits (created c)) (load_counters limits s1)
          (load_counters-Says limits (created c) s1 j))

clock_rule :
    {A B : Type 0} (P : B → Type 0) (r : Result A) (x y z : B)
    → P x
    → P y
    → P z
    → P (elim r [ raise type_error ↦ x | raise _ ↦ y | ok _ ↦ z ])
clock_rule P (ok a) x y z p q h = h
clock_rule P (raise type_error) x y z p q h = p
clock_rule P (raise value_error) x y z p q h = q
clock_rule P (raise key_error) x y z p q h = q
clock_rule P (raise overflow_error) x y z p q h = q

open_found-Says :
    (limits : Limits) (now : Value) (found : Found) (c : Tables) (s : Session)
    → IsFile c
    → Idle c s
    → IsOpened (open_found limits now found s)
unfolding open_found
open_found-Says limits now other_tables c s f i = tt
open_found-Says limits now (store_tables supported) c s f i =
    reply-Says limits c _ f.unique f.keys (
      Post-forget (LoadSays limits c) (Commits c)
        ((verify_schema supported >> load_counters limits) s) (opens_found limits c supported s i))
open_found-Says limits now no_tables c s f i =
    clock_rule IsOpened (signed_int64 0 now) _ _ _ tt tt
      (reply-Says limits (created c) _ f.unique f.keys (opens_new limits c s i))

on_names-Says :
    (limits : Limits) (now : Value) (found : Found) (c : Tables) (x : Answer Found × Session)
    → IsFile c
    → Post (λ a s. (a ≡ found) × Idle c s) (Commits c) x
    → IsOpened (on_names limits now x)
unfolding on_names
on_names-Says limits now found c (value a, s) f h = open_found-Says limits now a c s f h.1
on_names-Says limits now found c (sqlite_error _, s) f h = tt
on_names-Says limits now found c (integrity_error, s) f h = tt

options_rule :
    {A B : Type 0} (P : B → Type 0) (r : Result A) (f : Error → B) (g : A → B)
    → ((e : Error) → P (f e))
    → ((a : A) → P (g a))
    → P (elim r [ raise e ↦ f e | ok a ↦ g a ])
options_rule P (raise e) f g h k = h e
options_rule P (ok a) f g h k = k a

open_store-Says :
    (options : Options) (now : Value) (found : Found) (s : Session)
    → IsFile s.committed
    → s.working ≡ none
    → IsOpened (open_store options now found s)
unfolding open_store
open_store-Says options now found s f i =
    options_rule IsOpened (check_options options) _ _ (λ e. tt)
      (λ limits.
        on_names-Says limits now found s.committed (query (λ _. found) s) f
          (query-Idle s.committed (λ _. found) s (refl, i)))

-- On a file whose rows have distinct sequences and keys, a store that opens, with an idle connection,
-- has committed tables within its limits and with true counters, and so it has after any calls and
-- any failures of statements; while it is healthy its own counters are those of the tables.
pub opened_run-IsGood :
    (sha256 : List ℕ → List ℕ) (fails : ObservationEnvelope → ℕ → Option EncoderError)
    (options : Options) (now : Value) (found : Found) (session : Session) (s : Store)
    (cs : List Call)
    → IsFile session.committed
    → session.working ≡ none
    → open_store options now found session ≡ opened s
    → IsGood (run sha256 fails cs s)
opened_run-IsGood sha256 fails options now found session s cs f i e =
    run-IsGood sha256 fails cs s (subst IsOpened e (open_store-Says options now found session f i))
