-- ===== src/Trap.antt =====
-- The traps that end a process or grow its stack: `abort_current_process`, `HANDLE_TRAP_ILLEGAL`,
-- `HANDLE_TRAP_MATH` and `HANDLE_TRAP_MEMORY` of src/traps.c; `Yalnix_GetPid` of src/syscalls.c.
pub mod Stack
use yalnix_operating_system.Base.{
  ℕ, zero, suc, ◌+◌, ◌*◌, ◌/◌, ◌%◌, ◌^◌, Bool, true, false, ◌&&◌, ◌||◌, Option, none, some, [], ◌∷◌,
  if◌then◌else◌, ◌==◌, ltb, leb, get_elem?, set, error, sub_word,
}
use yalnix_operating_system.LinkedList.{pop}
use yalnix_operating_system.Kernel.State.{Kernel, Pte, Pcb, UserContext}
use yalnix_operating_system.Kernel.Run.{
  M, Outcome, returns, switched, ◌>>=◌, ◌>>◌, pure, get, put, crash, from, load_proc, store_proc,
}
use yalnix_operating_system.Memory.Frames.{fnum_to_pfn}
use yalnix_operating_system.Memory.Pointers.{region_pages, prot_read, prot_write}
use yalnix_operating_system.Memory.Brk.{up_to_page, down_to_page, page_shift, rounds_to}
use yalnix_operating_system.Process.Exit.{exit}

unfoldable pub get_pid : M ℕ
get_pid = do k ← get; c ← load_proc k.curr_proc; pure c.proc_id

-- `fresh` is what `malloc` returns for the exit status.
unfoldable pub abort_current_process : (fresh exit_code : ℕ) → M Outcome
abort_current_process fresh exit_code = exit fresh exit_code

unfoldable pub handle_trap_illegal : (fresh : ℕ) → M Outcome
handle_trap_illegal fresh = abort_current_process fresh error

unfoldable pub handle_trap_math : (fresh : ℕ) → M Outcome
handle_trap_math fresh = abort_current_process fresh error

-- `YALNIX_MAPERR` and `YALNIX_ACCERR` of yalnix.h, that is `SEGV_MAPERR` and `SEGV_ACCERR`.
abbrev pub maperr : ℕ
maperr = 1

abbrev pub accerr : ℕ
accerr = 2

-- One round of the loop over the stack's pages: false when the free frames have run out. The last
-- round is about the entry behind the table, whose `valid` bit is `beyond`; to write there is a fault.
unfoldable pub map_page : (beyond i : ℕ) → Pcb → Option Pte → M Bool
map_page beyond i c none = if i == region_pages && beyond == 1 then pure true else crash
map_page beyond i c (some e) = if e.valid == 1 then pure true else do
  k ← get
  let (popped, others) = pop k.frame_list
  elim popped [
    | none ↦ pure false
    | some node ↦ do
      put (record k { frame_list = others })
      store_proc k.curr_proc (record c {
        region1_pt =
            set c.region1_pt i
              (record { valid = 1; prot = prot_read + prot_write; pfn = fnum_to_pfn node.id });
      })
      pure true
  ]

-- The loop with `n` rounds left.
unfoldable pub grow_stack : (beyond n i : ℕ) → M Bool
grow_stack beyond zero i = pure true
grow_stack beyond (suc n) i = do
  k ← get
  c ← load_proc k.curr_proc
  mapped ← map_page beyond i c (get_elem? c.region1_pt i)
  if mapped then grow_stack beyond n (i + 1) else pure false

-- `abort_current_process` does not return: the process is gone.
unfoldable pub handle_trap_memory : (fresh beyond : ℕ) → M Outcome
handle_trap_memory fresh beyond = do
  k ← get
  uc ← from (k.frame_at k.curr_proc)
  c ← load_proc k.curr_proc
  let addr_pg = page_shift (down_to_page uc.addr)
  let usr_brk_pg = page_shift (up_to_page c.brk_addr)
  let first = sub_word addr_pg region_pages
  if uc.code == accerr
      then abort_current_process fresh error
      else if uc.code == maperr && (ltb uc.addr c.brk_addr || ltb uc.sp uc.addr)
      then abort_current_process fresh error
      else if leb (sub_word addr_pg usr_brk_pg) 2
      then abort_current_process fresh error
      else (do
        grown ← grow_stack beyond (rounds_to first region_pages) first
        if grown then pure (returns none) else abort_current_process fresh error)
