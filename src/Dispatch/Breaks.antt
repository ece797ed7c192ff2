-- ===== src/Dispatch/Breaks.antt =====
-- The system call `Brk` as a whole, with the checks in front of it.
use yalnix_operating_system.Base.{
  ℕ, zero, suc, ◌-◌, ◌/◌, ◌<◌, ◌≤◌, ◌≡◌, ◌≢◌, refl, List, [], ◌∷◌, some, arith, get_elem?, length,
  error, Bool-cases, inl, inr,
}
use yalnix_operating_system.Kernel.State.{Kernel, UserContext, Pcb, Pte}
use yalnix_operating_system.Kernel.Run.{M, Outcome, returns, ok}
use yalnix_operating_system.Memory.Pointers.{
  page_size, vmem_1_base, vmem_1_limit, region_pages, chk_range, page_of, chk_valid, chk_read,
  chk_write, chk_rw,
}
use yalnix_operating_system.Memory.Pointers.Gaps.{Maps, bit_or_one, bit_or_two}
use yalnix_operating_system.Memory.Brk.{brk}
use yalnix_operating_system.Memory.Brk.Bounds.{brk-error}
use yalnix_operating_system.Dispatch.{
  Syscall, Outside, guarded, value, serve, syscall_of, set_retval, handle_trap_kernel,
}
use yalnix_operating_system.Dispatch.Refused.{is_outside, answered, guarded_refuses}

entry_at : (xs : List Pte) (i : ℕ) → i < length xs → (e : Pte) × (get_elem? xs i ≡ some e)
entry_at [] i h = elim h [ ]
entry_at (x ∷ xs) zero h = (x, refl)
entry_at (x ∷ xs) (suc i) h = entry_at xs i (omega arith)

-- A guarded call that fails, fails, whatever the checks find on the page.
guarded_fails :
    (p : ℕ) (call : M Outcome) (k : Kernel) (e : Pte)
    → vmem_1_base ≤ p
    → p < vmem_1_limit
    → Maps k p e
    → call k ≡ ok (returns (some error)) k
    → guarded p call k ≡ ok (returns (some error)) k
unfolding guarded chk_range chk_valid page_of chk_rw chk_read chk_write
guarded_fails p call k e lo hi (c, hc, he) fails =
    ground (arith, bit_or_one e.prot, bit_or_two e.prot)

module _ (o : Outside) (retval : ℕ) (k : Kernel) (u : UserContext) (c : Pcb) (addr r1 r2 : ℕ)
    (frame : k.frame_at k.curr_proc ≡ some u) (code : syscall_of u.code ≡ Syscall.yalnix_brk)
    (reg0 : get_elem? u.regs 0 ≡ some addr) (reg1 : get_elem? u.regs 1 ≡ some r1)
    (reg2 : get_elem? u.regs 2 ≡ some r2) (running : k.procs k.curr_proc ≡ some c)
    (table : length c.region1_pt ≡ region_pages) (above : vmem_1_base ≤ c.uc.sp)
    (below : c.uc.sp < vmem_1_limit) (not_limit : addr ≢ vmem_1_limit) where
  brk_fails :
      vmem_1_base ≤ addr
      → addr < vmem_1_limit
      → guarded addr (value (brk addr)) k ≡ ok (returns (some error)) k
  brk_fails lo hi =
      let (e, there) =
        entry_at c.region1_pt (addr / page_size - region_pages) (omega (arith, table, lo, hi)) in
      guarded_fails addr (value (brk addr)) k e lo hi (c, running, there)
        (simp (brk-error k addr c running above below lo) refl)

  brk_refuses : guarded addr (value (brk addr)) k ≡ ok (returns (some error)) k
  brk_refuses = elim (Bool-cases (is_outside addr)) [
    | inl out ↦ guarded_refuses addr (value (brk addr)) k out
    | inr inside ↦ brk_fails (ground (arith, inside)) (ground (arith, inside, not_limit))
  ]

  -- For a process with a page table of 128 entries and a saved stack pointer in Region 1, the
  -- system call `Brk`, with any address but the end of Region 1 in its first register, puts -1
  -- into that register, and nothing else changes.
  pub brk_always_fails :
      handle_trap_kernel o retval k ≡ ok (returns (some error)) (answered k u error)
  unfolding handle_trap_kernel set_retval serve
  brk_always_fails = simp (frame, reg0, reg1, reg2, code, brk_refuses) refl
