-- ===== src/Xv6/Locks.antt =====
-- The locks of the kernel: spinlock.c and sleeplock.c of B22CS052/Helpful.
pub mod Cli
pub mod Spin
pub mod Sleep
