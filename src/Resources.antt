-- ===== src/Resources.antt =====
-- resources/: admission of work under memory, disk and queue pressure.
pub mod Budget
pub mod Admission
