-- ===== src/Keyboard.antt =====
-- The keyboard drivers: scan codes to characters.
pub mod Keymap
pub mod Modifiers
pub mod Plain
pub mod Dvorak
pub mod Sticky
pub mod Anomaly
pub mod Annoying
pub mod Helpful
mod Tests
