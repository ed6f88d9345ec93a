-- ===== src/Console/Helpful.antt =====
-- The console with all features, B22CS052/Helpful/console.c, by parts: its state and the strings that
-- it keeps, the completion of words, the devil mode, the interrupt.
pub mod State
pub mod Complete
pub mod Devil
pub mod Interrupt
pub mod Laws
