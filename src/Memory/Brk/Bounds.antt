-- ===== src/Memory/Brk/Bounds.antt =====
-- Which addresses the break calls take.
use yalnix_operating_system.Base.{
  ℕ, zero, suc, ◌+◌, ◌/◌, ◌<◌, ◌≤◌, ◌≡◌, ◌≢◌, refl, some, List, [], ◌∷◌, arith, get_elem?,
  if◌then◌else◌, ◌==◌, ltb, lt→ltb, leb, true, sub_word, error, success,
}
use yalnix_operating_system.Kernel.State.{Kernel, Pte, Pcb}
use yalnix_operating_system.Kernel.Run.{ok}
use yalnix_operating_system.Kernel.Switch.{kernel_stack_page}
use yalnix_operating_system.Memory.Pointers.{page_size, vmem_1_base, vmem_1_limit}
use yalnix_operating_system.Memory.Brk.{
  down_to_page, page_shift, shift_page, brk, mark_pages, kernel_stack_base, set_kernel_brk,
}

-- The page under the stack pointer, counted from the base of Region 1, is no address of Region 1.
stack_page_below :
    (sp : ℕ)
    → vmem_1_base ≤ sp
    → sp < vmem_1_limit
    → shift_page (sub_word (page_shift (down_to_page sp)) 128) < vmem_1_base
stack_page_below sp lo hi = ground arith

-- While the saved stack pointer of the running process is in Region 1, `Yalnix_Brk` refuses every
-- address from the base of Region 1 on, and nothing changes.
pub brk-error :
    (k : Kernel) (addr : ℕ) (c : Pcb)
    → k.procs k.curr_proc ≡ some c
    → vmem_1_base ≤ c.uc.sp
    → c.uc.sp < vmem_1_limit
    → vmem_1_base ≤ addr
    → brk addr k ≡ ok error k
unfolding brk
brk-error k addr c e lo hi a =
    let b = stack_page_below c.uc.sp lo hi in
    let out : ltb (shift_page (sub_word (page_shift (down_to_page c.uc.sp)) 128)) addr ≡ true =
      lt→ltb (shift_page (sub_word (page_shift (down_to_page c.uc.sp)) 128)) addr
        (omega (arith, b)) in
    simp e (simp out refl)

mark_pages_lem :
    (a i j : ℕ) (pt : List Pte) (e : Pte)
    → get_elem? pt j ≡ some e
    → (e' : Pte) × (get_elem? (mark_pages a i pt) j ≡ some e')
      × (e'.prot ≡ e.prot)
      × (e'.pfn ≡ e.pfn)
      × (i + j ≤ a → e'.valid ≡ 1)
      × (a < i + j → i + j < kernel_stack_page → e'.valid ≢ 1)
      × (a < i + j → kernel_stack_page ≤ i + j → e'.valid ≡ e.valid)
unfolding mark_pages
mark_pages_lem a i j [] e h = cc
mark_pages_lem a i zero (x ∷ xs) e h = (
  if leb i a
      then (if x.valid == 1 then x else record x { valid = 1 })
      else if ltb i kernel_stack_page
      then (if x.valid == 1 then record x { valid = 0 } else x)
      else x,
  refl,
  ground arith,
  ground arith,
  λ b. ground arith,
  λ b c. ground arith,
  λ b c. ground arith,
)
mark_pages_lem a i (suc j) (x ∷ xs) e h =
    let (e', g, p, f, v, w, z) = mark_pages_lem a (i + 1) j xs e h in
    (
      e',
      g,
      p,
      f,
      λ b. v (omega arith),
      λ b c. w (omega arith) (omega arith),
      λ b c. z (omega arith) (omega arith),
    )

-- Once virtual memory is on, a break between the kernel's data and the kernel stack is accepted:
-- of the entries of the page table, those up to the break's page are valid, those between it and
-- the kernel stack are not, those from the kernel stack on keep their validity, and none changes
-- its protection or frame.
pub set_kernel_brk_lem :
    (k : Kernel) (addr j : ℕ) (e : Pte)
    → k.vm_en ≢ 0
    → k.kernel_data_start ≤ addr
    → addr ≤ kernel_stack_base
    → get_elem? k.r0_pagetable j ≡ some e
    → (k' : Kernel) × (e' : Pte) × (set_kernel_brk addr k ≡ ok success k')
      × (k'.kernel_brk ≡ addr)
      × (get_elem? k'.r0_pagetable j ≡ some e')
      × (e'.prot ≡ e.prot)
      × (e'.pfn ≡ e.pfn)
      × (j ≤ addr / page_size → e'.valid ≡ 1)
      × (addr / page_size < j → j < kernel_stack_page → e'.valid ≢ 1)
      × (addr / page_size < j → kernel_stack_page ≤ j → e'.valid ≡ e.valid)
unfolding set_kernel_brk
set_kernel_brk_lem k addr j e on lo hi at =
    let (e', at', prot, pfn, low, gap, high) =
      mark_pages_lem (addr / page_size) 0 j k.r0_pagetable e at in
    (
      record k { r0_pagetable = mark_pages (addr / page_size) 0 k.r0_pagetable; kernel_brk = addr },
      e',
      ground arith,
      refl,
      at',
      prot,
      pfn,
      λ a. low (omega arith),
      λ a b. gap (omega arith) (omega arith),
      λ a b. high (omega arith) (omega arith),
    )
