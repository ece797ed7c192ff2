-- ===== src/Memory/Brk.antt =====
-- `Yalnix_Brk` of src/syscalls.c and `SetKernelBrk` of src/kernel.c.
pub mod Bounds
use yalnix_operating_system.Base.{
  ℕ, zero, suc, ◌+◌, ◌-◌, ◌*◌, ◌/◌, ◌%◌, ◌^◌, Bool, true, false, ◌||◌, Option, none, some, List, [],
  ◌∷◌, if◌then◌else◌, ◌==◌, ltb, leb, get_elem?, set, null, error, success, is_negative, add_word,
  sub_word, word_mod,
}
use yalnix_operating_system.LinkedList.{add_to_list, pop}
use yalnix_operating_system.Kernel.State.{Kernel, Pte, Pcb}
use yalnix_operating_system.Kernel.Run.{M, ◌>>=◌, ◌>>◌, pure, get, put, from, load_proc, store_proc}
use yalnix_operating_system.Kernel.Switch.{kernel_stack_page}
use yalnix_operating_system.Memory.Frames.{pfn_to_fnum, fnum_to_pfn}
use yalnix_operating_system.Memory.Pointers.{page_size, region_pages, prot_read, prot_write}

-- `UP_TO_PAGE` and `DOWN_TO_PAGE`.
abbrev pub up_to_page : ℕ → ℕ
up_to_page n = add_word n (page_size - 1) - add_word n (page_size - 1) % page_size

abbrev pub down_to_page : ℕ → ℕ
down_to_page n = n - n % page_size

-- `>> PAGESHIFT` on a long, which keeps the sign; `<< PAGESHIFT` on an unsigned int.
abbrev pub page_shift : ℕ → ℕ
page_shift n = n / page_size + (if is_negative n then word_mod - 2 ^ 19 else 0)

abbrev pub shift_page : ℕ → ℕ
shift_page n = n * page_size % word_mod

-- Rounds of `for (i = from; i <= to; i++)` and of `for (i = from; i < to; i++)`.
abbrev pub rounds_to : ℕ → ℕ → ℕ
rounds_to from to = to + 1 - from

-- One round of the loop over the heap's pages: false when the free frames have run out.
unfoldable pub heap_page : (i : ℕ) → Pcb → Pte → M Bool
heap_page i c e = if e.valid == 1 then pure true else do
  k ← get
  let (popped, others) = pop k.frame_list
  elim popped [
    | none ↦ pure false
    | some node ↦ do
      put (record k { frame_list = others })
      store_proc k.curr_proc (record c {
        region1_pt =
            set c.region1_pt i
              (record { valid = 1; prot = prot_read + prot_write; pfn = fnum_to_pfn node.id });
      })
      pure true
  ]

-- The loop with `n` rounds left.
unfoldable pub grow_heap : (n i : ℕ) → M Bool
grow_heap zero i = pure true
grow_heap (suc n) i = do
  k ← get
  c ← load_proc k.curr_proc
  e ← from (get_elem? c.region1_pt i)
  mapped ← heap_page i c e
  if mapped then grow_heap n (i + 1) else pure false

-- The loop over the pages between the heap and the stack with `n` rounds left.
unfoldable pub free_gap : (n i : ℕ) → M (Unit {0})
free_gap zero i = pure tt
free_gap (suc n) i = do
  k ← get
  c ← load_proc k.curr_proc
  e ← from (get_elem? c.region1_pt i)
  if e.valid == 1
      then (do
        put (record k { frame_list = add_to_list k.frame_list null (pfn_to_fnum e.pfn) })
        store_proc k.curr_proc
            (record c { region1_pt = set c.region1_pt i (record e { valid = 0 }) }))
      else pure tt
  free_gap n (i + 1)

unfoldable pub brk : (addr : ℕ) → M ℕ
brk addr = do
  k ← get
  c ← load_proc k.curr_proc
  let bottom_pg_heap = c.heap_base_page
  let top_pg_heap = sub_word (page_shift (up_to_page addr)) region_pages
  let bottom_pg_stack = sub_word (page_shift (down_to_page c.uc.sp)) region_pages
  if ltb (shift_page bottom_pg_stack) addr || ltb addr (shift_page bottom_pg_heap)
      then pure error
      else (do
        grown ← grow_heap (rounds_to bottom_pg_heap top_pg_heap) bottom_pg_heap
        if grown
            then (do
              free_gap (bottom_pg_stack - top_pg_heap) top_pg_heap
              k' ← get
              c' ← load_proc k'.curr_proc
              store_proc k'.curr_proc (record c' { brk_addr = shift_page top_pg_heap })
              pure success)
            else pure error)

-- The two loops over Region 0 in `SetKernelBrk`: page `i` and those after it.
unfoldable pub mark_pages : (addr_page i : ℕ) → List Pte → List Pte
mark_pages addr_page i [] = []
mark_pages addr_page i (e ∷ es) =
    (if leb i addr_page
      then (if e.valid == 1 then e else record e { valid = 1 })
      else if ltb i kernel_stack_page
      then (if e.valid == 1 then record e { valid = 0 } else e)
      else e)
    ∷ mark_pages addr_page (i + 1) es

abbrev pub kernel_stack_base : ℕ
kernel_stack_base = kernel_stack_page * page_size

unfoldable pub set_kernel_brk : (addr : ℕ) → M ℕ
set_kernel_brk addr = do
  k ← get
  if ltb kernel_stack_base addr || ltb addr k.kernel_data_start
      then pure error
      else if k.vm_en == 0
      then (do
        put (record k { kernel_brk = if ltb k.kernel_brk addr then addr else k.kernel_brk })
        pure success)
      else (do
        put (record k {
          r0_pagetable = mark_pages (addr / page_size) 0 k.r0_pagetable;
          kernel_brk = addr;
        })
        pure success)
