-- ===== src/Console/Helpful/Laws.antt =====
-- `consoleintr` of B22CS052/Helpful/console.c: its buffer, its completion, its encryption and its devil
-- mode.
pub mod Ring
pub mod Words
pub mod Modes
pub mod Total
