-- ===== src/Core.antt =====
-- The neutral contracts of core/ that the other packages exchange.
pub mod Envelope
pub mod Receipt
pub mod Value
pub mod Serialization
pub mod Sample
