-- ===== src/Agent.antt =====
-- agent/: what an agent may read, under an explicit grant.
pub mod Grants
pub mod Ledger
