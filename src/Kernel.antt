-- ===== src/Kernel.antt =====
-- src/kernel: processes and their scheduler.
pub mod Process
