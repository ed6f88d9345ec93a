-- ===== src/Xv6.antt =====
-- The parts of xv6 that the consoles stand on, B22CS052/Helpful.
pub mod Bcache
pub mod Locks
pub mod Log
pub mod Memory
pub mod Pages
pub mod Path
pub mod Proc
pub mod Syscall
pub mod Vm
pub mod Pipe
mod Tests
