-- ===== src/Storage/Sqlite/Database.antt =====
-- storage/sqlite_store.py: the tables of a store, and the session of its one connection. A
-- statement may fail as the list of faults says, and ends the transaction then if the fault says so;
-- a commit that fails leaves the committed tables as they were. No other connection writes.
pub mod Triples
use viskium.Prelude.{ℕ, String, Option, none, some, Bool, true, false, List, [], ◌∷◌, if◌then◌else◌}
use viskium.Core.Envelope.{PersistenceClass, SensitivityClass, ObservationEnvelope}

-- The table `observations`.
pub record Row : Type 0 where
  pub store_sequence : ℕ
  pub idempotency_key : String
  pub session_id : String
  pub observed_monotonic_ns : ℕ
  pub stored_unix_ns : ℕ
  pub expires_unix_ns : ℕ
  pub persistence_class : PersistenceClass
  pub sensitivity_class : SensitivityClass
  pub document_sha256 : List ℕ
  pub logical_bytes : ℕ
  pub document_json : List ℕ

-- The one row of `store_state`.
pub record StateRow : Type 0 where
  pub next_sequence : ℕ
  pub row_count : ℕ
  pub logical_bytes : ℕ

-- `rows` stands in the order of insertion.
pub record Tables : Type 0 where
  pub store_state : Option StateRow
  pub rows : List Row

-- `sqlite_errorcode & 0xFF`; `other` stands for every other code and for none.
pub data ErrorCode : Type 0 where
  full ioerr corrupt notadb readonly cantopen busy locked other : ErrorCode

pub record Fault : Type 0 where
  pub code : ErrorCode
  pub rolls_back : Bool

-- `working` has the tables as the open transaction sees them. An empty list of faults has none.
pub record Session : Type 0 where
  pub committed : Tables
  pub working : Option Tables
  pub faults : List (Option Fault)

-- How a method's code ends: with a value, an `sqlite3.Error` or a `SQLiteStoreIntegrityError`.
pub data Answer {ℓ} (A : Type ℓ) : Type ℓ where
  value : A → Answer A
  sqlite_error : ErrorCode → Answer A
  integrity_error : Answer A

abbrev pub Sql {ℓ} : Type ℓ → Type ℓ
Sql A = Session → Answer A × Session

infixl 5 ◌>>=◌ ◌>>◌
abbrev pub ◌>>=◌ {ℓ κ} : {A : Type ℓ} {B : Type κ} → Sql A → (A → Sql B) → Sql B
◌>>=◌ m f s =
    let (answer, s') = m s in
    elim answer [
      | value a ↦ f a s'
      | sqlite_error e ↦ (sqlite_error e, s')
      | integrity_error ↦ (integrity_error, s')
    ]

abbrev pub ◌>>◌ {ℓ} : {B : Type ℓ} → Sql (Unit {0}) → Sql B → Sql B
m >> k = m >>= λ _. k

abbrev pub pure {ℓ} : {A : Type ℓ} → A → Sql A
pure a s = (value a, s)

abbrev pub raise_integrity {ℓ} : {A : Type ℓ} → Sql A
raise_integrity s = (integrity_error, s)

abbrev pub raise_database {ℓ} : {A : Type ℓ} → Sql A
raise_database s = (sqlite_error other, s)

-- `if test: raise SQLiteStoreIntegrityError`
abbrev pub refuse_if : Bool → Sql (Unit {0})
refuse_if true = raise_integrity
refuse_if false = pure tt

-- What the next statement does: its fault, and the faults that are left.
unfoldable pub next_fault : List (Option Fault) → Option Fault
next_fault [] = none
next_fault (f ∷ fs) = f

unfoldable pub later_faults : List (Option Fault) → List (Option Fault)
later_faults [] = []
later_faults (f ∷ fs) = fs

abbrev pub tables : Session → Tables
tables s = elim s.working [ none ↦ s.committed | some t ↦ t ]

abbrev pub used : Session → Session
unfolding later_faults
used s = record s { faults = later_faults s.faults }

-- A statement is run, unless it meets a fault.
attempt : {A : Type 0} → Option Fault → Sql A → Sql A
attempt none m s = m (used s)
attempt (some f) m s =
    let s' = used s in
    (sqlite_error f.code, record s' { working = if f.rolls_back then none else s'.working })

write_tables : Tables → Option Tables → Session → Session
write_tables t none s = record s { committed = t }
write_tables t (some _) s = record s { working = some t }

written : {A : Type 0} → Option (A × Tables) → Sql A
unfolding write_tables
written none s = (sqlite_error other, s)
written (some (a, t)) s = (value a, write_tables t s.working s)

-- `_execute` of a query, and of a statement that changes the tables: outside of a transaction it
-- commits itself.
unfoldable pub query : {A : Type 0} → (Tables → A) → Sql A
unfolding attempt next_fault
query f s = attempt (next_fault s.faults) (λ s'. (value (f (tables s')), s')) s

-- A change that the schema refuses is `none`.
unfoldable pub change : {A : Type 0} → (Tables → Option (A × Tables)) → Sql A
unfolding attempt next_fault written
change f s = attempt (next_fault s.faults) (λ s'. written (f (tables s')) s') s

-- `_begin`
unfoldable pub begin : Sql (Unit {0})
unfolding attempt next_fault
begin s =
    attempt (next_fault s.faults) (λ s'. (value tt, record s' { working = some s'.committed })) s

-- `_commit`
unfoldable pub commit : Sql (Unit {0})
unfolding attempt next_fault
commit s =
    attempt (next_fault s.faults)
      (λ s'. (value tt, record s' { committed = tables s'; working = none })) s

roll_back : Option Tables → Sql (Unit {0})
unfolding attempt next_fault
roll_back none s = (value tt, s)
roll_back (some _) s =
    attempt (next_fault s.faults) (λ s'. (value tt, record s' { working = none })) s

-- `_rollback`
unfoldable pub rollback : Sql (Unit {0})
unfolding roll_back
rollback s = roll_back s.working s
