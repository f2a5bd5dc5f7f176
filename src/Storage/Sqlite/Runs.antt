-- ===== src/Storage/Sqlite/Runs.antt =====
-- storage/sqlite_store.py: the calls that an owner of a store makes, one after the other.
pub mod Sequences
pub mod Retry
use mathlib.Core.Path.{subst}
use viskium.Prelude.{
  ℕ, ◌+◌, ◌<◌, ◌≡◌, refl, sym, ap, ◌∙◌, ◌⊎◌, inl, inr, Option, none, some, Bool, true, false, List,
  [], ◌∷◌, arith, length,
}
use viskium.Core.Value.{Value}
use viskium.Core.Envelope.{ObservationEnvelope}
use viskium.Core.Receipt.{PersistenceReceipt}
use viskium.Storage.Sqlite.Database.{Row, StateRow, Tables}
use viskium.Storage.Sqlite.Statements.Selected.{In}
use viskium.Storage.Sqlite.Store.{Store}
use viskium.Storage.Sqlite.Put.{EncoderError, put}
use viskium.Storage.Sqlite.Put.Outcomes.{IsGood}
use viskium.Storage.Sqlite.Put.Kept.{IsBefore, put-IsGood, put-In}
use viskium.Storage.Sqlite.Purge.{purge_expired, close}
use viskium.Storage.Sqlite.Purge.Kept.{purge_expired-IsGood, purge_expired-In, close-Says}

-- A call, with what the clock reads, the free space of the volume, and the arguments.
pub data Call : Type 0 where
  puts : Value → Option Value → Option ObservationEnvelope → Call
  purges : ℕ → Value → Call
  closes : Call

module _ (sha256 : List ℕ → List ℕ) (fails : ObservationEnvelope → ℕ → Option EncoderError) where
  unfoldable pub apply : Call → Store → Store
  unfolding put purge_expired close
  apply (puts now free o) s = (put sha256 fails now free o s).0
  apply (purges limit now) s = (purge_expired limit now s).0
  apply closes s = close s

  unfoldable pub run : List Call → Store → Store
  unfolding apply
  run [] s = s
  run (c ∷ cs) s = run cs (apply c s)

  pub apply-IsGood : (c : Call) (s : Store) → IsGood s → IsGood (apply c s)
  unfolding apply
  apply-IsGood (puts now free o) s g = put-IsGood sha256 fails now free o s g
  apply-IsGood (purges limit now) s g = purge_expired-IsGood limit now s g
  apply-IsGood closes s g = (close-Says s g).0

  -- Whatever an owner calls and whichever statements fail: from a sound store, its committed tables
  -- stay within the limits with distinct sequences and keys and true counters, and while it is
  -- healthy no transaction is open and its own counters are those of the tables.
  pub run-IsGood : (cs : List Call) (s : Store) → IsGood s → IsGood (run cs s)
  unfolding run
  run-IsGood [] s g = g
  run-IsGood (c ∷ cs) s g = run-IsGood cs (apply c s) (apply-IsGood c s g)

-- Every call reads the clock before the time `n`, if it reads it.
abbrev pub CallsBefore : ℕ → List Call → Type 0
CallsBefore n [] = Unit
CallsBefore n (puts now free o ∷ cs) = IsBefore now n × CallsBefore n cs
CallsBefore n (purges limit now ∷ cs) = IsBefore now n × CallsBefore n cs
CallsBefore n (closes ∷ cs) = CallsBefore n cs

module _ (sha256 : List ℕ → List ℕ) (fails : ObservationEnvelope → ℕ → Option EncoderError) where
  -- A row stays in the committed tables of a sound store, through any calls and any failures of
  -- statements, while the clock reads less than its expiry.
  pub run-In :
      (cs : List Call) (s : Store) (q : Row)
      → IsGood s
      → In q s.session.committed.rows
      → CallsBefore q.expires_unix_ns cs
      → In q (run sha256 fails cs s).session.committed.rows
  unfolding run apply
  run-In [] s q g i late = i
  run-In (puts now free o ∷ cs) s q g i late =
      let s' = (put sha256 fails now free o s).0 in
      run-In cs s' q (put-IsGood sha256 fails now free o s g)
        (put-In sha256 fails now free o s q g i late.0) late.1
  run-In (purges limit now ∷ cs) s q g i late =
      let s' = (purge_expired limit now s).0 in
      run-In cs s' q (purge_expired-IsGood limit now s g)
        (purge_expired-In limit now s q g i late.0) late.1
  run-In (closes ∷ cs) s q g i late =
      let x = close-Says s g in
      run-In cs (close s) q x.0 (subst (λ (t : Tables). In q t.rows) (sym x.1) i) late
