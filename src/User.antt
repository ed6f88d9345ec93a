-- ===== src/User.antt =====
-- User programs of B22CS052/Helpful.
pub mod Grep
pub mod Shell
mod Tests
