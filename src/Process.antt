-- ===== src/Process.antt =====
-- The life of a process: `check_block` of src/blocks.c, `new_process` of src/PCB.c, the calls
-- `Delay`, `Wait`, `Exit` and `Fork` of src/syscalls.c, and the clock trap of src/traps.c.
pub mod Blocks
pub mod Clock
pub mod Wait
pub mod Exit
pub mod Fork
