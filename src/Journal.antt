-- ===== src/Journal.antt =====
-- steamos_log_submitter/helpers/journal.py
pub mod Escape
pub mod FileNames
pub mod Units
pub mod Collect
mod Tests
