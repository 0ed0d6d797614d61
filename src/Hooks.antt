-- ===== src/Hooks.antt =====
-- steamos_log_submitter/hooks: the programs that the kernel and udev start when something crashes.
pub mod Gpu
pub mod Coredump
pub mod Devcoredump
mod Tests
