-- ===== src/Fs.antt =====
-- src/fs: the file systems.
pub mod Fat16
pub mod Ramdisk
pub mod Vfs
