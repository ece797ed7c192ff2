-- ===== src/Examples/Sample.antt =====
-- A kernel with two processes, 100 (pid 1), which runs, and 200 (pid 2), which is its parent; process
-- 300 (pid 3) waits.
use yalnix_operating_system.Base.{ℕ, ◌-◌, ◌^◌, none, some, List, [], ◌∷◌, update}
use yalnix_operating_system.LinkedList.{node}
use yalnix_operating_system.Kernel.State.{
  Kernel, Pcb, Pte, UserContext, zero_block, no_text, Lock, Cvar,
}

abbrev pub user : UserContext
user = record { vector = 0; code = 0; addr = 0; pc = 0; sp = 2 ^ 21 - 4; ebp = 0; regs = [] }

abbrev pub page : ℕ → Pte
page f = record { valid = 1; prot = 3; pfn = f }

abbrev pub no_page : Pte
no_page = record { valid = 0; prot = 0; pfn = 0 }

abbrev pub pcb : (pid parent : ℕ) → Pcb
pcb pid parent = record {
  proc_id = pid;
  uc = user;
  block = zero_block;
  region0_pt = page 10 ∷ page 11 ∷ [];
  region1_pt = page 20 ∷ no_page ∷ page 21 ∷ [];
  children = none;
  exited_children = none;
  parent = parent;
  heap_base_page = 1;
  brk_addr = 0;
  kc_set = 1;
  write_buf = record { buf = no_text; len = 0 };
  read_len = 0;
}

abbrev pub child : Pcb
child = pcb 1 200

abbrev pub waiting_parent : Pcb
waiting_parent = record (pcb 2 0) { children = some (node 1 100 ∷ node 3 300 ∷ []) }

abbrev pub sleeper : Pcb
sleeper = record (pcb 3 200) {
  block = record { active = 1; type = 1; delay_count = 1; obj_ptr = 0 };
}

abbrev pub lock : Lock
lock = record { id = 5; is_claimed = 1; owner_id = 1; waiters = node 3 300 ∷ [] }

abbrev pub cvar : Cvar
cvar = record { id = 6; waiters = node 3 300 ∷ [] }

abbrev pub bytes : List ℕ
bytes = 7 ∷ 8 ∷ 9 ∷ []

abbrev pub kernel : Kernel
kernel = record {
  procs =
      update (update (update (λ _. none) 100 (some child)) 200 (some waiting_parent)) 300
        (some sleeper);
  lock_at = update (λ _. none) 500 (some lock);
  cvar_at = update (λ _. none) 600 (some cvar);
  pipe_at = λ _. none;
  tty_at = λ _. none;
  line_at = λ _. none;
  status_at = λ _. none;
  frame_at = λ _. some user;
  point_at = λ _. none;
  curr_proc = 100;
  ready_procs = node 3 300 ∷ [];
  blocked_procs = node 3 300 ∷ [];
  all_procs = node 1 100 ∷ node 2 200 ∷ node 3 300 ∷ [];
  dead_procs = [];
  locks = node 5 500 ∷ [];
  cvars = node 6 600 ∷ [];
  pipes = [];
  ttys = [];
  frame_list = node 30 0 ∷ node 31 0 ∷ node 32 0 ∷ [];
  next_resource_id = 8;
  available_process_id = 4;
  r0_pagetable = page 0 ∷ no_page ∷ page 2 ∷ [];
  ptbr1 = 0;
  phys = λ f. f;
  kernel_data_start = 0;
  kernel_brk = 8192;
  vm_en = 1;
  log = [];
}
