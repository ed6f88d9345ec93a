-- ===== src/Console.antt =====
-- The consoles: the line editor behind the keyboard interrupt, and what it shows.
pub mod Screen
pub mod Device
pub mod Print
pub mod Ring
pub mod Editor
pub mod Reader
pub mod Session
pub mod Enigma
pub mod Helpful
pub mod Annoying
pub mod Autocomplete
pub mod Bgcolor
mod Tests
