-- ===== src/Sync.antt =====
-- The synchronisation calls of src/syscalls.c: locks, condition variables, pipes and `Reclaim`.
pub mod Locks
pub mod Cvars
pub mod Pipes
pub mod Reclaim
pub mod Fresh
