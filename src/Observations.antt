-- ===== src/Observations.antt =====
-- observations/: what the package keeps of the observations for its readers.
pub mod Latest
