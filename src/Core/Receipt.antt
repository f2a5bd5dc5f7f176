-- ===== src/Core/Receipt.antt =====
-- `PersistenceReceipt` of core/contracts.py, as a store returns it.
use viskium.Prelude.{ℕ, String, Option}

pub data PersistenceStatus : Type 0 where
  accepted coalesced rejected gap failed : PersistenceStatus

pub record PersistenceReceipt : Type 0 where
  pub status : PersistenceStatus
  pub reason : Option String
  pub store_sequence : Option ℕ
  pub bytes_accepted : ℕ
