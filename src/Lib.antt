-- ===== src/Lib.antt =====
-- Yalnix: a kernel in C for a simulated machine. It has processes with their own page tables (fork,
-- exec, wait, exit, delay, brk), a round-robin scheduler driven by the clock trap, locks, condition
-- variables and pipes, and terminals.
--
-- Which file models what:
--   LinkedList            src/linked_list.c: `init_list`, `add_to_list`, `remove_from_list`, `pop`,
--                         `count_items`, `find_by_id`, `find_by_data`, on the sequence of the nodes;
--                         below it, Heap has those that change a list on the links in memory
--   Kernel/State          the records of src/pcb.h, lock.h, cvar.h, pipe.h, tty.h and blocks.h, and the
--                         globals of src/kernel.h, as one record `Kernel`
--   Kernel/Run            the monad of the handlers
--   Kernel/Switch         src/kernel.c: `MyKCSClone`, `MyKCSSwitch`, `perform_context_switch`,
--                         `switch_to_next_available_proc`
--   Memory/Frames         the loops of `Yalnix_Fork` and `Yalnix_Exit` (src/syscalls.c) over page tables
--   Memory/Pointers       src/traps.c: the `chk_` functions
--   Memory/Brk            `Yalnix_Brk` (src/syscalls.c), `SetKernelBrk` (src/kernel.c)
--   Process/Blocks        `check_block` (src/blocks.c), `Yalnix_Delay` (src/syscalls.c)
--   Process/Clock         `HANDLE_TRAP_CLOCK` (src/traps.c)
--   Process/Wait, Exit, Fork   `Yalnix_Wait`, `Yalnix_Exit`, `Yalnix_Fork` (src/syscalls.c),
--                         `new_process` (src/PCB.c)
--   Sync/Locks, Cvars, Pipes, Reclaim   `Yalnix_LockInit` to `Yalnix_Reclaim` (src/syscalls.c)
--   Terminal              `Yalnix_TtyWrite`, `Yalnix_TtyRead`, the two terminal traps of src/traps.c
--   Trap                  `abort_current_process`, `HANDLE_TRAP_ILLEGAL`, `HANDLE_TRAP_MATH`,
--                         `HANDLE_TRAP_MEMORY` (src/traps.c), `Yalnix_GetPid` (src/syscalls.c)
--   Program/Load, Exec    `LoadProgram` (src/load_program.c), `Yalnix_Exec` (src/syscalls.c)
--   Dispatch              `HANDLE_TRAP_KERNEL` (src/traps.c), `interrupt_vector` (src/kernel.c), and what a
--                         handler still does when its process comes back
--   Boot                  `KernelStart` (src/kernel.c)
--   System                the kernel as a machine that takes steps: a trap in user mode, or a process that
--                         was switched to and goes on in the kernel; an invariant of the kernel is a record of
--                         what keeps it, which the traps take as a parameter; Ring, Ticks, Rounds and
--                         FirstRun have the clock ticks among processes that compute
-- Below these, modules hold their proofs (Sync/Locks/Handoff, Memory/Frames/Conserve and so on); Base
-- has the shared names and lemmas, Examples the theorems at concrete states.
--
-- State and effects. An object lives at an address in a store of its type; what `malloc` returns is an
-- argument. A handler maps a `Kernel` to a `Run`: a value and a new state, a fault (a NULL or dangling
-- pointer followed, memory left outside a buffer), an `exit` of the kernel, or a loop without end. A
-- handler that can block returns an `Outcome`: the value for the user, or `switched`, after which the
-- state is that in which the next process runs; the C code that the blocked process has still to run
-- is the `rest` of its saved point, and is a definition of its own (`wait_resumed`,
-- `pipe_read_resumed` and so on). What is written to user memory or handed to a terminal, and a second
-- `free`, is logged, latest first. The contents of a frame are one number. A `memcpy` between areas that
-- overlap is a fault. What stands on a kernel stack is kept by process, not by frame; in `exec`, which
-- frees the frames of the kernel stack it runs on, a load that takes one of them is a fault.
-- Until the next switch a later call, such as a fork, can take one of them too; in the model this has no
-- effect on the stack.
--
-- Numbers. `int` and `unsigned int` are 32-bit patterns in ℕ, -1 is `2 ^ 32 - 1`, and signed tests look at
-- the sign bit.
--
-- Fuel. The search of an exit for the next process takes fuel, one more than the ready queue is
-- long, which is enough: a round without success repeats itself. The loops over the links of a list
-- take more fuel than the list has nodes, which is enough, as each node is met once. Other loops run
-- over sequences or over a number of rounds that their bounds give.
--
-- The machine. A step is a trap, with any user context that the hardware can have saved, or the rest of a
-- handler in a process that was switched to. Which trap comes next is free, so that a theorem on what is
-- reachable holds for all user programs and all orders of interrupts. Handlers run with interrupts off.
--
-- Outside the kernel. What `open`, `LoadInfo` and `read` make of an executable, the strings that an exec
-- copies, the bytes behind a buffer, the command line and the size of the memory are arguments.
--
-- Not modelled: tracing; the flush of the translation buffer; calls of `SetKernelBrk` from inside `malloc`;
-- `DoIdle`, which pauses; the programs in usr_progs, test and sample; the empty
-- src/PageTable.c; src/load_program_broke.c, an older copy of src/load_program.c that is not built.
mod Base
pub mod LinkedList
pub mod Kernel
pub mod Memory
pub mod Process
pub mod Sync
pub mod Terminal
pub mod Trap
pub mod Program
pub mod Dispatch
pub mod Boot
pub mod System
mod Examples
