-- ===== src/Dbus.antt =====
-- steamos_log_submitter/dbus.py: the parts that compute. The connection itself is dbus_next's.
pub mod Match
pub mod Variant
pub mod Properties
pub mod Signature
mod Tests
