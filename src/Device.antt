-- ===== src/Device.antt =====
-- device/: which input devices make up the keyboard.
pub mod Identity
pub mod Discovery
