-- ===== src/Libc.antt =====
-- The C library of the kernel, src/libc.
pub mod Strings
pub mod Search
pub mod Numbers
pub mod Sort
pub mod Math
