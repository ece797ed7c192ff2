-- ===== src/Kernel/Switch.antt =====
-- The context switch of src/kernel.c: `switch_to_next_available_proc`, `perform_context_switch`,
-- `MyKCSSwitch` and `MyKCSClone`. `KernelContextSwitch` itself is the hardware's: it is taken to
-- succeed, saves the running kernel context in `kc_in` and resumes the one that is returned. What a
-- kernel stack holds is kept by process: the trap's frame, and the point where the C code stands.
pub mod Same
pub mod Laws
pub mod Turns
use yalnix_operating_system.Base.{
  ℕ, Bool, true, none, some, List, ◌++◌, take, drop, ◌==◌, if◌then◌else◌, update, null,
}
use yalnix_operating_system.LinkedList.{pop}
use yalnix_operating_system.Memory.Frames.{copy_pages}
use yalnix_operating_system.Kernel.State.{
  Kernel, Pte, UserContext, UcRef, trap_frame, pcb_uc, Rest, Point,
}
use yalnix_operating_system.Kernel.Run.{
  M, ◌>>=◌, ◌>>◌, pure, get, put, crash, from, load_proc, store_proc, make_ready,
}

-- `KERNEL_STACK_BASE >> PAGESHIFT`.
abbrev pub kernel_stack_page : ℕ
kernel_stack_page = 126

abbrev pub ks_npg : ℕ
ks_npg = 2

-- `*uc` in code that runs on the kernel stack of process `stack`.
abbrev read_uc : ℕ → UcRef → M UserContext
read_uc stack trap_frame = do k ← get; from (k.frame_at stack)
read_uc stack (pcb_uc p) = do c ← load_proc p; pure c.uc

abbrev write_uc : ℕ → UcRef → UserContext → M (Unit {0})
write_uc stack trap_frame u = do
  k ← get
  put (record k { frame_at = update k.frame_at stack (some u) })
write_uc stack (pcb_uc p) u = do c ← load_proc p; store_proc p (record c { uc = u })

save_point : ℕ → Point → M (Unit {0})
save_point p here =
    if p == null
    then pure tt
    else do k ← get; put (record k { point_at = update k.point_at p (some here) })

-- The kernel context of `curr` becomes that of `next`, and so do the contents of the kernel stack,
-- page by page. The pages below the kernel stack that the C code borrows for the copy get their old
-- entries back.
my_kcs_clone : ℕ → ℕ → M (Unit {0})
my_kcs_clone curr next = if curr == null then crash else do
  k ← get
  here ← from (k.point_at curr)
  n ← load_proc next
  put (record k {
    phys =
        copy_pages (λ e. true) (drop kernel_stack_page k.r0_pagetable) (take ks_npg n.region0_pt)
          k.phys;
    point_at = update k.point_at next (some here);
    frame_at = update k.frame_at next (k.frame_at curr);
  })

unfoldable pub my_kcs_switch : ℕ → ℕ → Point → M (Unit {0})
unfolding save_point my_kcs_clone
my_kcs_switch curr next here = do
  save_point curr here
  n ← load_proc next
  if n.kc_set == 0
      then (do
        my_kcs_clone curr next
        n' ← load_proc next
        store_proc next (record n' { kc_set = 1 }))
      else pure tt
  k ← get
  if curr == null then pure tt else (do
    c ← load_proc curr
    store_proc curr (record c { region0_pt = drop kernel_stack_page k.r0_pagetable }))
  n'' ← load_proc next
  k' ← get
  put (record k' {
    r0_pagetable = take kernel_stack_page k'.r0_pagetable ++ take ks_npg n''.region0_pt;
    ptbr1 = next;
  })

-- The running process's user context goes to its control block, the next one's to `*uc`.
unfoldable pub exchange_uc : ℕ → ℕ → ℕ → UcRef → M (Unit {0})
exchange_uc stack curr next uc = do
  if curr == null
      then pure tt
      else (do u ← read_uc stack uc; c ← load_proc curr; store_proc curr (record c { uc = u }))
  n ← load_proc next
  write_uc stack uc n.uc

-- Up to the moment when `next` runs. `curr` is NULL when an exited process is left.
unfoldable pub perform_context_switch : ℕ → ℕ → ℕ → Point → M (Unit {0})
perform_context_switch stack curr next here = do
  exchange_uc stack curr next here.uc
  k ← get
  put (record k { curr_proc = next })
  my_kcs_switch curr next here

-- The end of `perform_context_switch`, in the process that has been switched to.
unfoldable pub finish_context_switch : UcRef → M (Unit {0})
finish_context_switch uc = do k ← get; c ← load_proc k.curr_proc; write_uc k.curr_proc uc c.uc

unfoldable pub switch_to_next_available_proc : UcRef → Rest → Bool → M (Unit {0})
switch_to_next_available_proc uc rest should_run_again = do
  k ← get
  if should_run_again
      then (do c ← load_proc k.curr_proc; make_ready k.curr_proc c.proc_id)
      else pure tt
  k' ← get
  let (n, others) = pop k'.ready_procs
  node ← from n
  put (record k' { ready_procs = others })
  perform_context_switch k.curr_proc k.curr_proc node.item (record { uc = uc; rest = rest })
