-- ===== src/Drivers.antt =====
-- src/drivers: the part of the drivers that is logic on state.
pub mod Keyboard
pub mod Vga
pub mod Mouse
