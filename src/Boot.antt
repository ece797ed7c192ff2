-- ===== src/Boot.antt =====
-- `KernelStart` of src/kernel.c.
pub mod Start
use yalnix_operating_system.Base.{
  ℕ, zero, suc, ◌+◌, ◌-◌, ◌*◌, ◌/◌, ◌%◌, ◌^◌, Bool, true, false, ◌||◌, Option, none, some, List, [],
  ◌∷◌, drop, set, replicate, if◌then◌else◌, ◌==◌, ltb, leb, update, null, success,
}
use yalnix_operating_system.LinkedList.{NodeList, init_list, add_to_list, pop}
use yalnix_operating_system.Kernel.State.{Kernel, Pte, Pcb, Tty, UserContext}
use yalnix_operating_system.Kernel.Run.{M, ◌>>=◌, ◌>>◌, pure, get, put, from, load_proc, store_proc}
use yalnix_operating_system.Kernel.Switch.{kernel_stack_page, ks_npg}
use yalnix_operating_system.Memory.Frames.{fnum_to_pfn}
use yalnix_operating_system.Memory.Pointers.{
  page_size, vmem_1_limit, region_pages, prot_read, prot_write,
}
use yalnix_operating_system.Memory.Brk.{up_to_page, page_shift}
use yalnix_operating_system.Process.Fork.{new_process}
use yalnix_operating_system.Program.Load.{Executable, load_program, prot_exec}

-- What the boot finds outside the kernel: the end of its data, the size of the memory, the context that the
-- boot ROM has built, the command line and the file that it names; the addresses of the idle function, of the
-- static page table of Region 1 and of what `malloc` returns, and what is in the new control blocks.
pub record BootArgs : Type 0 where
  pub kernel_data_end : ℕ
  pub pmem_size : ℕ
  pub uctxt : UserContext
  pub cmd_args : List (List ℕ)
  pub file : Executable
  pub do_idle : ℕ
  pub r1_pagetable : ℕ
  pub proc_pagetable : ℕ
  pub argbuf : ℕ
  pub tty : ℕ → ℕ
  pub idle_proc : ℕ
  pub init_proc : ℕ
  pub idle_junk : Pcb
  pub init_junk : Pcb

abbrev pub num_terminals : ℕ
num_terminals = 4

-- The loop over the terminals with `n` rounds left.
unfoldable pub make_ttys : (tty : ℕ → ℕ) → (n i : ℕ) → M (Unit {0})
make_ttys tty zero i = pure tt
make_ttys tty (suc n) i = do
  k ← get
  put (record k {
    tty_at =
        update k.tty_at (tty i)
          (some (record { id = i; readers = init_list; writers = init_list; buffers = init_list }));
    ttys = add_to_list k.ttys (tty i) i;
  })
  make_ttys tty n (i + 1)

-- The loop that lists the frames from `i` on.
unfoldable pub list_frames : (n i : ℕ) → NodeList → NodeList
list_frames zero i frames = frames
list_frames (suc n) i frames = list_frames n (i + 1) (add_to_list frames null i)

-- The loop over the entries of `r0_pagetable`, from page `i` on.
abbrev pub kernel_entry : (in_use data_page i : ℕ) → Pte
kernel_entry in_use data_page i = record {
  valid = if ltb i in_use || leb kernel_stack_page i then 1 else 0;
  prot = if ltb i data_page then prot_read + prot_exec else prot_read + prot_write;
  pfn = fnum_to_pfn i;
}

unfoldable pub kernel_entries : (in_use data_page n i : ℕ) → List Pte
kernel_entries in_use data_page zero i = []
kernel_entries in_use data_page (suc n) i =
    kernel_entry in_use data_page i ∷ kernel_entries in_use data_page n (i + 1)

abbrev pub no_page : Pte
no_page = record { valid = 0; prot = prot_read + prot_write; pfn = 0 }

abbrev pub rw_page : ℕ → Pte
rw_page f = record { valid = 1; prot = prot_read + prot_write; pfn = fnum_to_pfn f }

-- `pop(&FrameList)->id`, where no free frame is a NULL pointer.
unfoldable pub take_frame : M ℕ
take_frame = do
  k ← get
  let (popped, others) = pop k.frame_list
  node ← from popped
  put (record k { frame_list = others })
  pure node.id

-- The globals and the queues.
unfoldable pub init_queues : BootArgs → M (Unit {0})
init_queues a = do
  k ← get
  put (record k {
    kernel_brk = a.kernel_data_end;
    vm_en = 0;
    available_process_id = 0;
    ready_procs = init_list;
    blocked_procs = init_list;
    all_procs = init_list;
    dead_procs = init_list;
    ttys = init_list;
  })

-- The tables of resources, the free frames and the page tables.
unfoldable pub init_tables : BootArgs → M (Unit {0})
init_tables a = do
  k ← get
  put (record k {
    next_resource_id = 0;
    locks = init_list;
    cvars = init_list;
    pipes = init_list;
    frame_list = list_frames (a.pmem_size / page_size - region_pages) region_pages k.frame_list;
    r0_pagetable =
        kernel_entries (page_shift (up_to_page a.kernel_data_end)) (k.kernel_data_start / page_size)
          region_pages 0;
    ptbr1 = a.r1_pagetable;
    vm_en = 1;
  })

unfoldable pub make_idle : BootArgs → M (Unit {0})
make_idle a = do
  idle ← new_process a.idle_proc a.idle_junk a.uctxt
  f1 ← take_frame
  f2 ← take_frame
  k ← get
  c ← load_proc idle
  let u = c.uc
  store_proc idle (record c {
    uc = record u { pc = a.do_idle; sp = vmem_1_limit - page_size };
    kc_set = 1;
    parent = null;
    region0_pt = drop kernel_stack_page k.r0_pagetable;
    region1_pt =
        set (set (replicate region_pages no_page) (region_pages - 1) (rw_page f1))
          (region_pages - 2) (rw_page f2);
  })

unfoldable pub make_init : BootArgs → M (Unit {0})
make_init a = do
  idle ← load_proc a.idle_proc
  init ← new_process a.init_proc a.init_junk idle.uc
  f1 ← take_frame
  f2 ← take_frame
  c ← load_proc init
  store_proc init (record c {
    region0_pt = rw_page f1 ∷ rw_page f2 ∷ [];
    region1_pt = replicate region_pages no_page;
    parent = a.idle_proc;
  })
  idle' ← load_proc a.idle_proc
  store_proc a.idle_proc (record idle' { children = some (add_to_list init_list init c.proc_id) })

-- The program of the command line, if there is one.
unfoldable pub start_init : BootArgs → List (List ℕ) → M (Unit {0})
start_init a [] = do
  k ← get
  idle ← load_proc a.idle_proc
  put (record k {
    all_procs = add_to_list k.all_procs a.idle_proc idle.proc_id;
    curr_proc = a.idle_proc;
  })
start_init a (name ∷ args) = do
  rc ← load_program a.proc_pagetable a.argbuf a.file (name ∷ args) a.init_proc
  k ← get
  init ← load_proc a.init_proc
  if rc == success
      then put (record k {
        all_procs = add_to_list k.all_procs a.init_proc init.proc_id;
        ready_procs = add_to_list k.ready_procs a.init_proc init.proc_id;
      })
      else put (record k { ptbr1 = a.r1_pagetable })

-- The idle process becomes the running one, with its user context.
unfoldable pub run_idle : BootArgs → M (Unit {0})
run_idle a = do
  k ← get
  idle ← load_proc a.idle_proc
  put (record k {
    all_procs = add_to_list k.all_procs a.idle_proc idle.proc_id;
    curr_proc = a.idle_proc;
    frame_at = update k.frame_at a.idle_proc (some idle.uc);
  })

unfoldable pub kernel_start : BootArgs → M (Unit {0})
kernel_start a = do
  init_queues a
  make_ttys a.tty num_terminals 0
  init_tables a
  make_idle a
  make_init a
  start_init a a.cmd_args
  run_idle a
