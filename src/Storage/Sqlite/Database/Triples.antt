-- ===== src/Storage/Sqlite/Database/Triples.antt =====
-- storage/sqlite_store.py: rules on the statements of a session, by what is committed and what the
-- open transaction sees.
use viskium.Prelude.{◌≡◌, refl, sym, ap, ◌∙◌, Option, none, some, Bool, true, false}
use viskium.Storage.Sqlite.Database.{
  Tables, Fault, Session, Answer, value, sqlite_error, integrity_error, Sql, ◌>>=◌, refuse_if,
  query, change, begin, commit, rollback, next_fault, attempt, write_tables, written, used, tables,
  roll_back,
}

-- `Q` holds where the code gives a value, and `E` where it raises.
abbrev pub Post {ℓ} :
    {A : Type ℓ} → (A → Session → Type 0) → (Session → Type 0) → Answer A × Session → Type 0
Post Q E (value a, s) = Q a s
Post Q E (sqlite_error _, s) = E s
Post Q E (integrity_error, s) = E s

bind_at {ℓ κ} :
    {A : Type ℓ} {B : Type κ} (Q : A → Session → Type 0) (R : B → Session → Type 0)
    (E : Session → Type 0) (f : A → Sql B) (r : Answer A × Session) (s : Session)
    → Post Q E r
    → ((a : A) (s' : Session) → Q a s' → Post R E (f a s'))
    → Post R E (((λ (_ : Session). r) >>= f) s)
bind_at Q R E f (value a, s') s h k = k a s' h
bind_at Q R E f (sqlite_error e, s') s h k = h
bind_at Q R E f (integrity_error, s') s h k = h

pub Post-bind {ℓ κ} :
    {A : Type ℓ} {B : Type κ} (Q : A → Session → Type 0) (R : B → Session → Type 0)
    (E : Session → Type 0) (m : Sql A) (f : A → Sql B) (s : Session)
    → Post Q E (m s)
    → ((a : A) (s' : Session) → Q a s' → Post R E (f a s'))
    → Post R E ((m >>= f) s)
Post-bind Q R E m f s h k = bind_at Q R E f (m s) s h k

pub Post-weaken {ℓ} :
    {A : Type ℓ} (Q R : A → Session → Type 0) (E : Session → Type 0) (r : Answer A × Session)
    → Post Q E r
    → ((a : A) (s : Session) → Q a s → R a s)
    → Post R E r
Post-weaken Q R E (value a, s) h k = k a s h
Post-weaken Q R E (sqlite_error _, s) h k = h
Post-weaken Q R E (integrity_error, s) h k = h

pub bind-value {ℓ κ} :
    {A : Type ℓ} {B : Type κ} (m : Sql A) (f : A → Sql B) (s : Session) (a : A) (s' : Session)
    → m s ≡ (value a, s')
    → (m >>= f) s ≡ f a s'
bind-value m f s a s' h = ap (λ r. ((λ (_ : Session). r) >>= f) s) h

pub Post-session {ℓ} :
    {A : Type ℓ} (E : Session → Type 0) (r : Answer A × Session) → Post (λ _ s. E s) E r → E r.1
Post-session E (value a, s) h = h
Post-session E (sqlite_error _, s) h = h
Post-session E (integrity_error, s) h = h

-- What is committed, and what the open transaction sees.
abbrev pub Open : Tables → Tables → Session → Type 0
Open c w s = (s.committed ≡ c) × (s.working ≡ some w)

abbrev pub Idle : Tables → Session → Type 0
Idle c s = (s.committed ≡ c) × (s.working ≡ none)

abbrev pub Commits : Tables → Session → Type 0
Commits c s = s.committed ≡ c

-- A fault changes no committed table.
attempt-Post :
    {A : Type 0} (Q : A → Session → Type 0) (c : Tables) (f : Option Fault) (m : Sql A)
    (s : Session)
    → Commits c s
    → Post Q (Commits c) (m (used s))
    → Post Q (Commits c) (attempt f m s)
unfolding attempt used
attempt-Post Q c none m s h k = k
attempt-Post Q c (some f) m s h k = h

tables-Open : (c w : Tables) (s : Session) → Open c w s → tables s ≡ w
tables-Open c w s h = rw (h.1, tables) refl

written-Open :
    {A : Type 0} (c w : Tables) (r : Option (A × Tables)) (f : Option (A × Tables)) (s : Session)
    → f ≡ r
    → Open c w s
    → Post (λ a s'. (t : Tables) × (f ≡ some (a, t)) × Open c t s') (Commits c) (written r s)
unfolding written write_tables
written-Open c w none f s e h = h.0
written-Open c w (some (a, t)) f s e h = (t, e, rw (h.1, write_tables) (h.0, refl))

module _ (c w : Tables) where
  known :
      {A : Type 0} (b : A) (u : Tables) (a : A) (t : Tables) (s : Session)
      → ◌≡◌ {A = Option (A × Tables)} (some (b, u)) (some (a, t))
      → Open c t s
      → (a ≡ b) × Open c u s
  known b u a t s e o = (cc, (o.0, o.1 ∙ cc))

  pub query-Open :
      {A : Type 0} (f : Tables → A) (s : Session)
      → Open c w s
      → Post (λ a s'. (a ≡ f w) × Open c w s') (Commits c) (query f s)
  unfolding query used
  query-Open f s h =
      attempt-Post _ c (next_fault s.faults) _ s h.0 (ap f (tables-Open c w (used s) h), h)

  pub change-Open :
      {A : Type 0} (f : Tables → Option (A × Tables)) (s : Session)
      → Open c w s
      → Post (λ a s'. (t : Tables) × (f w ≡ some (a, t)) × Open c t s') (Commits c) (change f s)
  unfolding change used
  change-Open f s h = attempt-Post _ c (next_fault s.faults) _ s h.0 (
      written-Open c w (f (tables (used s))) (f w) (used s)
        (ap f (sym (tables-Open c w (used s) h))) h)

  -- A change that the schema allows.
  pub change-known :
      {A : Type 0} (f : Tables → Option (A × Tables)) (b : A) (u : Tables) (s : Session)
      → Open c w s
      → f w ≡ some (b, u)
      → Post (λ a s'. (a ≡ b) × Open c u s') (Commits c) (change f s)
  change-known f b u s h e =
      Post-weaken _ _ (Commits c) (change f s) (change-Open f s h)
        (λ a s' q. let (t, p, o) = q in known b u a t s' (sym e ∙ p) o)

  pub commit-Open : (s : Session) → Open c w s → Post (λ _ s'. Idle w s') (Commits c) (commit s)
  unfolding commit used
  commit-Open s h =
      attempt-Post _ c (next_fault s.faults) _ s h.0 (tables-Open c w (used s) h, refl)

-- A query outside of a transaction.
pub query-Idle :
    {A : Type 0} (c : Tables) (f : Tables → A) (s : Session)
    → Idle c s
    → Post (λ a s'. (a ≡ f c) × Idle c s') (Commits c) (query f s)
unfolding query used
query-Idle c f s h = attempt-Post _ c (next_fault s.faults) _ s h.0 (rw (h.1, tables) (ap f h.0), h)

pub begin-Open :
    (c : Tables) (s : Session) → Idle c s → Post (λ _ s'. Open c c s') (Commits c) (begin s)
unfolding begin used
begin-Open c s h = attempt-Post _ c (next_fault s.faults) _ s h.0 (h.0, ap some h.0)

roll_back-Idle :
    (c : Tables) (w : Option Tables) (s : Session)
    → s.working ≡ w
    → Commits c s
    → Post (λ _ s'. Idle c s') (Commits c) (roll_back w s)
unfolding roll_back used
roll_back-Idle c none s e h = (h, e)
roll_back-Idle c (some _) s e h = attempt-Post _ c (next_fault s.faults) _ s h (h, refl)

pub rollback-Idle :
    (c : Tables) (s : Session) → Commits c s → Post (λ _ s'. Idle c s') (Commits c) (rollback s)
unfolding rollback
rollback-Idle c s h = roll_back-Idle c s.working s refl h

pub refuse_if-Post :
    (Q : Session → Type 0) (E : Session → Type 0) (b : Bool) (s : Session)
    → Q s
    → E s
    → Post (λ _ s'. (b ≡ false) × Q s') E (refuse_if b s)
refuse_if-Post Q E true s h k = k
refuse_if-Post Q E false s h k = (refl, h)
