-- ===== src/Kernel.antt =====
-- The kernel's state, the commands over it, and the context switch.
pub mod State
pub mod Run
pub mod Switch
pub mod Procs
