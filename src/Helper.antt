-- ===== src/Helper.antt =====
-- steamos_log_submitter/helpers/__init__.py: what all helpers share.
pub mod Collect
pub mod Names
pub mod Switches
pub mod Extract
pub mod Setup
pub mod Staging
mod Tests
