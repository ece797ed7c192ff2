-- ===== src/Program.antt =====
-- Programs: `LoadProgram` of src/load_program.c and `Yalnix_Exec` of src/syscalls.c.
pub mod Load
pub mod Exec
