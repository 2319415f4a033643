-- ===== src/Mm.antt =====
-- The memory managers of the kernel (src/mm).
pub mod Pmm
pub mod Kmalloc
pub mod Vmm
