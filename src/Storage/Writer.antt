-- ===== src/Storage/Writer.antt =====
-- storage/writer.py: `ObservationWriter`, its caller's side, its worker, and the two together.
pub mod State
pub mod Calls
pub mod Worker
mod Recent
pub mod System
pub mod Invariant
pub mod Reach
pub mod Admission
pub mod Shutdown
pub mod Drain
mod Tests
