-- ===== src/Memory.antt =====
-- Physical frames, the page tables that map them, and the calls and traps that change them.
pub mod Frames
pub mod Pointers
pub mod Brk
