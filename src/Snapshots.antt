-- ===== src/Snapshots.antt =====
-- snapshots/: the rendezvous between a request for a snapshot and the live frames.
pub mod Broker
