-- ===== src/System.antt =====
-- The kernel as a whole.
pub mod Tables
pub mod Sync
pub mod Processes
pub mod Memory
pub mod Terminals
pub mod Faults
pub mod Programs
pub mod Numbers
pub mod Orderly
pub mod Spawn
pub mod Fork
pub mod Invariant
pub mod Calls
pub mod Resume
pub mod Traps
pub mod Machine
pub mod Ring
pub mod Ticks
pub mod Rounds
pub mod FirstRun
pub mod Start
pub mod Boot
