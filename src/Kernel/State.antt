-- ===== src/Kernel/State.antt =====
-- The records of src/pcb.h, lock.h, cvar.h, pipe.h, tty.h and blocks.h, the kernel's globals
-- (kernel.h), and what a switched-out process keeps on its kernel stack.
use yalnix_operating_system.Base.{ℕ, Option, List, Store}
use yalnix_operating_system.LinkedList.{NodeList}

-- `struct pte`; `prot` is its three permission bits.
pub record Pte : Type 0 where
  pub valid : ℕ
  pub prot : ℕ
  pub pfn : ℕ

-- `UserContext` of hardware.h.
pub record UserContext : Type 0 where
  pub vector : ℕ
  pub code : ℕ
  pub addr : ℕ
  pub pc : ℕ
  pub sp : ℕ
  pub ebp : ℕ
  pub regs : List ℕ

-- `block_t`. Only the `delay_count` member of the union is ever used.
pub record Block : Type 0 where
  pub active : ℕ
  pub type : ℕ
  pub delay_count : ℕ
  pub obj_ptr : ℕ

-- `bzero(block, sizeof(block_t))`.
abbrev pub zero_block : Block
zero_block = record { active = 0; type = 0; delay_count = 0; obj_ptr = 0 }

-- `buffer` as a process's `write_buf`: no text, text, or a pointer to something that is no text.
pub data Text : Type 0 where
  no_text : Text
  text : List ℕ → Text
  stray : Text

pub record Buffer : Type 0 where
  pub buf : Text
  pub len : ℕ

-- `PCB_t`. `children` and `exited_children` are NULL until the first child. The page tables, the
-- block, the user context and the buffer are the process's own, so they are stored in place.
pub record Pcb : Type 0 where
  pub proc_id : ℕ
  pub uc : UserContext
  pub block : Block
  pub region0_pt : List Pte
  pub region1_pt : List Pte
  pub children : Option NodeList
  pub exited_children : Option NodeList
  pub parent : ℕ
  pub heap_base_page : ℕ
  pub brk_addr : ℕ
  pub kc_set : ℕ
  pub write_buf : Buffer
  pub read_len : ℕ

pub record Lock : Type 0 where
  pub id : ℕ
  pub is_claimed : ℕ
  pub owner_id : ℕ
  pub waiters : NodeList

pub record Cvar : Type 0 where
  pub id : ℕ
  pub waiters : NodeList

pub record Pipe : Type 0 where
  pub id : ℕ
  pub len : ℕ
  pub buf : List ℕ
  pub waiters : NodeList

pub record Tty : Type 0 where
  pub id : ℕ
  pub readers : NodeList
  pub writers : NodeList
  pub buffers : NodeList

-- Where the `UserContext *` argument of `perform_context_switch` points: to the frame that the
-- hardware pushed on the kernel stack at the trap, or into a process control block.
pub data UcRef : Type 0 where
  trap_frame : UcRef
  pcb_uc : ℕ → UcRef

-- The C code that is left to run when a process comes back from `KernelContextSwitch`, with the
-- local variables that it reads.
pub data Rest : Type 0 where
  after_clock : Rest
  after_fork : (parent child : ℕ) → Rest
  after_wait : (parent status_ptr : ℕ) → Rest
  after_delay : Rest
  after_tty_write : (len : ℕ) → Rest
  after_tty_read : (tty buf len : ℕ) → Rest
  after_acquire : Rest
  after_cvar_wait : (lock : ℕ) → Rest
  after_cvar_acquire : Rest
  after_pipe_read : (pipe buf len : ℕ) → Rest

pub record Point : Type 0 where
  pub uc : UcRef
  pub rest : Rest

-- What the kernel does to the world outside it, latest first: ints and bytes written to the
-- memory of the running process, lines handed to a terminal, a second `free` of one node.
pub data Event : Type 0 where
  int_stored : (proc ptr value : ℕ) → Event
  bytes_stored : (proc ptr : ℕ) → List ℕ → Event
  transmitted : (tty : ℕ) → List ℕ → Event
  freed_twice : Event

-- The globals of kernel.h; the objects behind the pointers, by address; what the kernel stacks
-- hold, by process; the contents of the physical frames, a page of bytes as one number; and the log.
pub record Kernel : Type 0 where
  pub procs : Store Pcb
  pub lock_at : Store Lock
  pub cvar_at : Store Cvar
  pub pipe_at : Store Pipe
  pub tty_at : Store Tty
  pub line_at : Store (List ℕ)
  pub status_at : Store ℕ
  pub frame_at : Store UserContext
  pub point_at : Store Point
  pub curr_proc : ℕ
  pub ready_procs : NodeList
  pub blocked_procs : NodeList
  pub all_procs : NodeList
  pub dead_procs : NodeList
  pub locks : NodeList
  pub cvars : NodeList
  pub pipes : NodeList
  pub ttys : NodeList
  pub frame_list : NodeList
  pub next_resource_id : ℕ
  pub available_process_id : ℕ
  pub r0_pagetable : List Pte
  pub ptbr1 : ℕ
  pub phys : ℕ → ℕ
  pub kernel_data_start : ℕ
  pub kernel_brk : ℕ
  pub vm_en : ℕ
  pub log : List Event
