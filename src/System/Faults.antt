-- ===== src/System/Faults.antt =====
-- The traps of processes that fault leave the tables alone.
use yalnix_operating_system.Base.{
  ℕ, zero, suc, ◌+◌, Bool, true, false, Option, none, some, ◌≡◌, arith, error, ltb, ◌==◌,
  if◌then◌else◌, sub_word, leb, ◌&&◌, ◌||◌, get_elem?,
}
use yalnix_operating_system.Kernel.State.{Kernel, Pte, Pcb}
use yalnix_operating_system.Kernel.Run.{
  M, ok, and_then-eq-ok, Outcome, returns, ◌>>=◌, pure, get, from, load_proc,
}
use yalnix_operating_system.System.Tables.{
  SameTables, SameTables-trans, Keeps, bind-Keeps, pure-Keeps, get-Keeps, from-Keeps,
  load_proc-Keeps, if-Keeps,
}
use yalnix_operating_system.Memory.Pointers.{region_pages}
use yalnix_operating_system.Memory.Brk.{up_to_page, down_to_page, page_shift, rounds_to}
use yalnix_operating_system.Trap.{
  accerr, maperr, abort_current_process, map_page, grow_stack, handle_trap_memory,
}
use yalnix_operating_system.System.Processes.{exit-Keeps}

module _ (at : ℕ) where
  map_page-Keeps :
      (beyond i : ℕ) (c : Pcb) (e : Option Pte) (k : Kernel) (a : Bool) (k' : Kernel)
      → k.procs k.curr_proc ≡ some c
      → map_page beyond i c e k ≡ ok a k'
      → SameTables at k k'
  unfolding map_page
  map_page-Keeps beyond i c e k a k' here h = ground arith

  pub grow_stack-Keeps : (beyond n i : ℕ) → Keeps at (grow_stack beyond n i)
  unfolding grow_stack
  grow_stack-Keeps beyond zero i k b k' h = ground arith
  grow_stack-Keeps beyond (suc n) i k b k' h =
      let (c, k₁, e₁, h₁) = and_then-eq-ok (load_proc k.curr_proc k) _ h in
      let (mapped, k₂, e₂, h₂) =
        and_then-eq-ok (map_page beyond i c (get_elem? c.region1_pt i) k₁) _ h₁ in
      let same : SameTables at k₁ k₂ =
        map_page-Keeps beyond i c (get_elem? c.region1_pt i) k₁ mapped k₂ (ground arith) e₂ in
      SameTables-trans at (load_proc-Keeps at k.curr_proc k c k₁ e₁) (
        SameTables-trans at same (
          if-Keeps at mapped (grow_stack beyond n (i + 1)) (pure false)
            (grow_stack-Keeps beyond n (i + 1)) (pure-Keeps at false) k₂ b k' h₂))

  pub abort_current_process-Keeps : (fresh code : ℕ) → Keeps at (abort_current_process fresh code)
  unfolding abort_current_process
  abort_current_process-Keeps fresh code k a k' h = exit-Keeps at fresh code k a k' h

  abbrev grow_or_abort : (fresh beyond n i : ℕ) → M Outcome
  grow_or_abort fresh beyond n i = do
    grown ← grow_stack beyond n i
    if grown then pure (returns none) else abort_current_process fresh error

  grow_or_abort-Keeps : (fresh beyond n i : ℕ) → Keeps at (grow_or_abort fresh beyond n i)
  grow_or_abort-Keeps fresh beyond n i =
      bind-Keeps at (grow_stack beyond n i) _ (grow_stack-Keeps beyond n i) (λ b.
        if-Keeps at b (pure (returns none)) (abort_current_process fresh error)
          (pure-Keeps at (returns none)) (abort_current_process-Keeps fresh error))

  -- Three tests in a row, each of which may end the process.
  aborts-Keeps :
      (fresh : ℕ) (p q r : Bool) (m : M Outcome)
      → Keeps at m
      → Keeps at (
          if p
          then abort_current_process fresh error
          else if q
          then abort_current_process fresh error
          else if r
          then abort_current_process fresh error
          else m)
  aborts-Keeps fresh true q r m h = abort_current_process-Keeps fresh error
  aborts-Keeps fresh false true r m h = abort_current_process-Keeps fresh error
  aborts-Keeps fresh false false true m h = abort_current_process-Keeps fresh error
  aborts-Keeps fresh false false false m h = h

  pub handle_trap_memory-Keeps : (fresh beyond : ℕ) → Keeps at (handle_trap_memory fresh beyond)
  unfolding handle_trap_memory
  handle_trap_memory-Keeps fresh beyond = bind-Keeps at get _ (get-Keeps at) (λ k.
      bind-Keeps at (from (k.frame_at k.curr_proc)) _ (from-Keeps at (k.frame_at k.curr_proc))
        (λ uc. bind-Keeps at (load_proc k.curr_proc) _ (load_proc-Keeps at k.curr_proc) (λ c.
          let first : ℕ = sub_word (page_shift (down_to_page uc.addr)) region_pages in
          aborts-Keeps fresh (uc.code == accerr)
            (uc.code == maperr && (ltb uc.addr c.brk_addr || ltb uc.sp uc.addr))
            (leb (sub_word (page_shift (down_to_page uc.addr)) (page_shift (up_to_page c.brk_addr)))
              2)
            (grow_or_abort fresh beyond (rounds_to first region_pages) first)
            (grow_or_abort-Keeps fresh beyond (rounds_to first region_pages) first))))
