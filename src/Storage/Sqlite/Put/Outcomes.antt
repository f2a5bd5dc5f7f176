-- ===== src/Storage/Sqlite/Put/Outcomes.antt =====
-- storage/sqlite_store.py: the ways in which a `put` ends.
use viskium.Prelude.{ℕ, ◌≡◌, refl, ◌⊎◌, String, Option, none, some, Bool, true, false, List}
use viskium.Core.Value.{Value, natural, Result, ok, raise}
use viskium.Core.Envelope.{ObservationEnvelope}
use viskium.Core.Receipt.{PersistenceReceipt}
use viskium.Core.Serialization.Document.{bounded_observation_bytes}
use viskium.Storage.Sqlite.Database.{Tables, Session, pure}
use viskium.Storage.Sqlite.Database.Triples.{Post, Post-bind, Idle, Commits, query-Idle}
use viskium.Storage.Sqlite.Statements.{select_duplicate, decode_duplicate}
use viskium.Storage.Sqlite.Store.{StoreState, Store}
use viskium.Storage.Sqlite.Sound.{IsSound}
use viskium.Storage.Sqlite.Put.{EncoderError, Order, accepted, expiry}
use viskium.Storage.Sqlite.Checks.{prevalidate, duplicate_receipt, receipt_if_found, look_up}
use viskium.Storage.Sqlite.Put.Steps.{decode_duplicate-Says, duplicate_refused}
use viskium.Storage.Sqlite.Put.Reclaim.{is_accepted, Added}

-- To split on a result or an option that a definition reads.
pub result_rule :
    {A B : Type 0} (P : B → Type 0) (r : Result A) (f : A → B) (g : B)
    → ((a : A) → r ≡ ok a → P (f a))
    → P g
    → P (elim r [ ok a ↦ f a | raise _ ↦ g ])
result_rule P (ok a) f g h k = h a refl
result_rule P (raise e) f g h k = k

pub option_rule :
    {A B : Type 0} (P : B → Type 0) (o : Option A) (f : A → B) (g : B)
    → ((a : A) → o ≡ some a → P (f a))
    → (o ≡ none → P g)
    → P (elim o [ none ↦ g | some a ↦ f a ])
option_rule P (some a) f g h k = h a refl
option_rule P none f g h k = k refl

abbrev pub is_healthy : StoreState → Bool
is_healthy StoreState.healthy = true
is_healthy _ = false

-- A store whose committed tables are sound, and while it is healthy no transaction is open and its
-- own counters are right.
pub record IsGood (s : Store) : Type 0 where
  pub sound : IsSound s.max_rows s.max_logical_bytes s.session.committed
  pub idle : is_healthy s.state ≡ true → s.session.working ≡ none
  pub rows : is_healthy s.state ≡ true → s.row_count ≡ sound.row.row_count
  pub bytes : is_healthy s.state ≡ true → s.logical_bytes ≡ sound.row.logical_bytes

-- Nothing was stored: the tables and the counters are as they were.
pub record Refused (s s' : Store) (r : PersistenceReceipt) : Type 0 where
  pub committed : s'.session.committed ≡ s.session.committed
  pub status : is_accepted r.status ≡ false
  pub idle : is_healthy s'.state ≡ true → s'.session.working ≡ none
  pub health : is_healthy s'.state ≡ true → is_healthy s.state ≡ true
  pub row_count : s'.row_count ≡ s.row_count
  pub logical_bytes : s'.logical_bytes ≡ s.logical_bytes
  pub limit : s'.max_observation_bytes ≡ s.max_observation_bytes
  pub max_rows : s'.max_rows ≡ s.max_rows
  pub max_logical_bytes : s'.max_logical_bytes ≡ s.max_logical_bytes

-- What `put` was asked to store.
pub record Asked (sha256 : List ℕ → List ℕ) (fails : ObservationEnvelope → ℕ → Option EncoderError)
    (limit : ℕ) (now : Value) (o : Option ObservationEnvelope) (p : Order) : Type 0 where
  pub observation : o ≡ some p.observation
  pub valid : prevalidate p.observation ≡ none
  pub encoded : fails p.observation limit ≡ none
  pub document : bounded_observation_bytes p.observation limit ≡ some p.document
  pub digest : p.digest ≡ sha256 p.document
  pub time : now ≡ natural p.stored_unix_ns
  pub lasts : expiry p.observation.ttl_ns p.stored_unix_ns ≡ ok p.expires_unix_ns

-- A row was stored, for an order that was asked for.
pub record Stored (K : Order → Type 0) (s s' : Store) (r : PersistenceReceipt) : Type 0 where
  pub order : Order
  pub asked : K order
  pub sequence : ℕ
  pub added :
      Added order s.session.committed sequence s'.row_count s'.logical_bytes s'.session.committed
  pub receipt : r ≡ accepted sequence order.document
  pub idle : s'.session.working ≡ none
  pub state : s'.state ≡ s.state
  pub limit : s'.max_observation_bytes ≡ s.max_observation_bytes
  pub order_rows : order.max_rows ≡ s'.max_rows
  pub order_bytes : order.max_logical_bytes ≡ s'.max_logical_bytes

abbrev pub Effect : (Order → Type 0) → Store → Store × PersistenceReceipt → Type 0
Effect K s x = Refused s x.0 x.1 ⊎ Stored K s x.0 x.1

abbrev pub LookupSays : Tables → Option PersistenceReceipt → Session → Type 0
LookupSays c none s = Idle c s
LookupSays c (some receipt) s = Idle c s × (is_accepted receipt.status ≡ false)

receipt_if_found-Says :
    (c : Tables) (digest : List ℕ) (found : Option (ℕ × List ℕ)) (s : Session)
    → Idle c s
    → Post (LookupSays c) (Commits c) (receipt_if_found digest found s)
unfolding receipt_if_found
receipt_if_found-Says c digest none s i = i
receipt_if_found-Says c digest (some d) s i =
    Post-bind _ (LookupSays c) (Commits c) (decode_duplicate d)
      (λ e. pure (some (duplicate_receipt digest e))) s
      (decode_duplicate-Says (Idle c) (Commits c) d s i i.0)
      (λ x s1 q. (q, duplicate_refused digest x))

pub look_up-Says :
    (c : Tables) (key : String) (digest : List ℕ) (s : Session)
    → Idle c s
    → Post (LookupSays c) (Commits c) (look_up key digest s)
unfolding look_up select_duplicate
look_up-Says c key digest s i =
    Post-bind _ (LookupSays c) (Commits c) (select_duplicate key) (receipt_if_found digest) s
      (query-Idle c _ s i) (λ found s1 q. receipt_if_found-Says c digest found s1 q.1)
