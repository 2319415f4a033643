-- ===== src/Sys.antt =====
-- The kernel's services to processes (src/sys).
pub mod Elf
pub mod Pipe
pub mod Signal
