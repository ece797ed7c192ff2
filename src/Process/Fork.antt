-- ===== src/Process/Fork.antt =====
-- `new_process` of src/PCB.c and `Yalnix_Fork` of src/syscalls.c.
pub mod Child
pub mod Short
use yalnix_operating_system.Base.{
  ℕ, Bool, true, not, ◌||◌, Option, none, some, if◌then◌else◌, ◌==◌, drop, take, null, error,
  add_word,
}
use yalnix_operating_system.LinkedList.{NodeList, init_list, add_to_list}
use yalnix_operating_system.Kernel.State.{
  UserContext, zero_block, no_text, Pte, Pcb, trap_frame, after_fork,
}
use yalnix_operating_system.Kernel.Run.{
  M, Outcome, returns, switched, ◌>>=◌, ◌>>◌, pure, get, put, crash, from, load_proc, store_proc,
}
use yalnix_operating_system.Kernel.Switch.{kernel_stack_page, ks_npg, perform_context_switch}
use yalnix_operating_system.Memory.Frames.{is_valid, give_frames, copy_pages}

-- `junk` is what `malloc` finds in the memory of the new control block and of what hangs on it.
unfoldable pub new_process : (fresh : ℕ) → (junk : Pcb) → UserContext → M ℕ
new_process fresh junk uc = if fresh == null then crash else do
  k ← get
  let blank = junk.uc
  put (record k { available_process_id = add_word k.available_process_id 1 })
  store_proc fresh (record junk {
    proc_id = k.available_process_id;
    uc = record blank { vector = uc.vector; code = uc.code };
    block = zero_block;
    children = none;
    exited_children = none;
    parent = null;
    heap_base_page = 0;
    brk_addr = 0;
    kc_set = 0;
    write_buf = record { buf = no_text; len = 0 };
  })
  pure fresh

-- What `malloc` returns: the control block, what is in it, and the two page tables.
pub record Mallocs : Type 0 where
  pub pcb : ℕ
  pub junk : Pcb
  pub region0_pt : ℕ
  pub region1_pt : ℕ

abbrev pub every_page : Pte → Bool
every_page e = true

abbrev pub list_of : Option NodeList → NodeList
list_of none = init_list
list_of (some ns) = ns

-- The end of a fork that has its frames: the copy of the pages, the family, the queues.
unfoldable pub launch : (parent child : ℕ) → M (Unit {0})
launch parent child = do
  k ← get
  p ← load_proc parent
  c ← load_proc child
  let stack = copy_pages every_page (drop kernel_stack_page k.r0_pagetable) c.region0_pt k.phys
  put (record k { phys = copy_pages is_valid p.region1_pt c.region1_pt stack })
  store_proc child (record c { parent = parent })
  store_proc parent
      (record p { children = some (add_to_list (list_of p.children) child c.proc_id) })
  k' ← get
  put (record k' {
    all_procs = add_to_list k'.all_procs child c.proc_id;
    ready_procs = add_to_list k'.ready_procs parent p.proc_id;
  })

unfoldable pub fork : Mallocs → M Outcome
fork m = do
  k ← get
  let parent = k.curr_proc
  u ← from (k.frame_at parent)
  p ← load_proc parent
  store_proc parent (record p { uc = u })
  child ← new_process m.pcb m.junk u
  blank ← load_proc child
  let c = record blank { uc = u }
  store_proc child c
  if m.region0_pt == null || m.region1_pt == null then pure (returns (some error)) else do
    k₁ ← get
    let stack = give_frames every_page (take ks_npg p.region0_pt) k₁.frame_list
    let user = give_frames is_valid p.region1_pt stack.frames
    put (record k₁ { frame_list = if stack.enough then user.frames else stack.frames })
    store_proc child (record c {
      heap_base_page = p.heap_base_page;
      brk_addr = p.brk_addr;
      region0_pt = stack.table;
      region1_pt = if stack.enough then user.table else p.region1_pt;
    })
    if not stack.enough
        then pure (returns (some error))
        else if not user.enough
        then pure (returns (some error))
        else do
          launch parent child
          perform_context_switch parent parent child
              (record { uc = trap_frame; rest = after_fork parent child })
          pure switched

-- The end of the call, in the parent or in the child.
unfoldable pub fork_resumed : (parent child : ℕ) → M ℕ
fork_resumed parent child = do
  k ← get
  if k.curr_proc == parent
      then (do c ← load_proc child; pure c.proc_id)
      else if k.curr_proc == child
      then pure 0
      else pure error
