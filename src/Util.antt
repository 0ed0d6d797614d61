-- ===== src/Util.antt =====
-- steamos_log_submitter/util.py
pub mod Dmi
pub mod Stat
pub mod Appid
pub mod Case
pub mod Read
pub mod Root
pub mod Release
mod Tests
