-- ===== src/Capture.antt =====
-- The capture package.
pub mod Contracts
pub mod Controller
pub mod Slot
