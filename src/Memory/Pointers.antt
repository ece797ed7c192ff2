-- ===== src/Memory/Pointers.antt =====
-- The checks that src/traps.c makes on pointers from user mode.
pub mod Gaps
use yalnix_operating_system.Base.{
  ℕ, zero, suc, ◌+◌, ◌-◌, ◌*◌, ◌/◌, ◌%◌, ◌^◌, Bool, true, false, ◌||◌, Option, none, some, List,
  if◌then◌else◌, ◌==◌, ltb, get_elem?, is_negative, add_word, sub_word, word_mod,
}
use Prim.Native.Nat.{bit_or}
use yalnix_operating_system.Kernel.State.{Kernel, Pte}
use yalnix_operating_system.Kernel.Run.{M, ◌>>=◌, ◌>>◌, pure, get, from, load_proc}

abbrev pub page_size : ℕ
page_size = 2 ^ 13

abbrev pub vmem_1_base : ℕ
vmem_1_base = 2 ^ 20

abbrev pub vmem_1_limit : ℕ
vmem_1_limit = 2 ^ 21

-- Pages in a region; the page number where Region 1 begins.
abbrev pub region_pages : ℕ
region_pages = 128

-- Bits of `prot`, as <sys/mman.h> has them.
abbrev pub prot_read : ℕ
prot_read = 1

abbrev pub prot_write : ℕ
prot_write = 2

-- Each check is 1 when it finds fault with the pointer.
unfoldable pub chk_range : ℕ → ℕ
chk_range ptr = if ltb ptr vmem_1_base || ltb vmem_1_limit ptr then 1 else 0

-- `curr_proc->region1_pt + (ptr >> PAGESHIFT) - 128`, followed: outside the table it is a fault.
unfoldable pub page_of : ℕ → M Pte
page_of ptr = do
  k ← get
  c ← load_proc k.curr_proc
  from (
      if ltb (ptr / page_size) region_pages
      then none
      else get_elem? c.region1_pt (ptr / page_size - region_pages))

unfoldable pub chk_valid : ℕ → M ℕ
chk_valid ptr = do e ← page_of ptr; pure (if e.valid == 1 then 0 else 1)

unfoldable pub chk_read : ℕ → M ℕ
chk_read ptr = do e ← page_of ptr; pure (if bit_or e.prot prot_read == 0 then 1 else 0)

unfoldable pub chk_write : ℕ → M ℕ
chk_write ptr = do e ← page_of ptr; pure (if bit_or e.prot prot_write == 0 then 1 else 0)

-- `chk_write(ptr) || chk_read(ptr)`, with the evaluation order of `||`.
unfoldable pub chk_rw : ℕ → M ℕ
chk_rw ptr = do
  w ← chk_write ptr
  if w == 0 then (do r ← chk_read ptr; pure (if r == 0 then 0 else 1)) else pure 1

unfoldable pub chk_page : ℕ → M ℕ
chk_page ptr =
    if chk_range ptr == 1
    then pure 1
    else do v ← chk_valid ptr; if v == 1 then pure 1 else chk_rw ptr

-- The loop of `chk_str` with `n` rounds left.
unfoldable pub chk_pages : (n ptr : ℕ) → M ℕ
chk_pages zero ptr = pure 0
chk_pages (suc n) ptr = do
  bad ← chk_page ptr
  if bad == 0 then chk_pages n (add_word ptr page_size) else pure 1

-- `len / PAGESIZE` is an int division, so a negative length makes for no round at all.
unfoldable pub chk_str : (ptr len : ℕ) → M ℕ
chk_str ptr len = if is_negative len then pure 0 else chk_pages (len / page_size) ptr
