-- ===== src/System/Memory.antt =====
-- The checks on pointers and the break leave the tables alone.
use yalnix_operating_system.Base.{
  ℕ, zero, suc, ◌+◌, Bool, false, some, ◌≡◌, arith, ◌==◌, add_word, is_negative, get_elem?, ◌/◌,
}
use yalnix_operating_system.Kernel.State.{Kernel, Pte, Pcb}
use yalnix_operating_system.Kernel.Run.{ok, and_then-eq-ok, pure, from, load_proc}
use yalnix_operating_system.System.Tables.{
  SameTables, SameTables-trans, Keeps, bind-Keeps, pure-Keeps, if-Keeps,
}
use yalnix_operating_system.Memory.Pointers.{
  page_size, page_of, chk_range, chk_valid, chk_read, chk_write, chk_rw, chk_page, chk_pages,
  chk_str,
}
use yalnix_operating_system.Memory.Brk.{heap_page, grow_heap, free_gap, brk}

module _ (at : ℕ) where
  pub chk_valid-Keeps : (ptr : ℕ) → Keeps at (chk_valid ptr)
  unfolding chk_valid page_of
  chk_valid-Keeps ptr k a k' h = ground arith

  pub chk_rw-Keeps : (ptr : ℕ) → Keeps at (chk_rw ptr)
  unfolding chk_rw chk_read chk_write page_of
  chk_rw-Keeps ptr k a k' h = ground arith

  pub chk_page-Keeps : (ptr : ℕ) → Keeps at (chk_page ptr)
  unfolding chk_page
  chk_page-Keeps ptr = if-Keeps at (chk_range ptr == 1) (pure 1) _ (pure-Keeps at 1) (
      bind-Keeps at (chk_valid ptr) _ (chk_valid-Keeps ptr)
        (λ v. if-Keeps at (v == 1) (pure 1) (chk_rw ptr) (pure-Keeps at 1) (chk_rw-Keeps ptr)))

  pub chk_pages-Keeps : (n ptr : ℕ) → Keeps at (chk_pages n ptr)
  unfolding chk_pages
  chk_pages-Keeps zero ptr k a k' h = ground arith
  chk_pages-Keeps (suc n) ptr k₀ a k' h =
      (bind-Keeps at (chk_page ptr) _ (chk_page-Keeps ptr) (λ bad.
          if-Keeps at (bad == 0) (chk_pages n (add_word ptr page_size)) (pure 1)
            (chk_pages-Keeps n (add_word ptr page_size)) (pure-Keeps at 1)))
        k₀ a k' h

  pub chk_str-Keeps : (ptr len : ℕ) → Keeps at (chk_str ptr len)
  unfolding chk_str
  chk_str-Keeps ptr len =
      if-Keeps at (is_negative len) (pure 0) (chk_pages (len / page_size) ptr) (pure-Keeps at 0)
        (chk_pages-Keeps (len / page_size) ptr)

  heap_page-Keeps :
      (i : ℕ) (c : Pcb) (e : Pte) (k : Kernel) (a : Bool) (k' : Kernel)
      → k.procs k.curr_proc ≡ some c
      → heap_page i c e k ≡ ok a k'
      → SameTables at k k'
  unfolding heap_page
  heap_page-Keeps i c e k a k' here h = ground arith

  pub grow_heap-Keeps : (n i : ℕ) → Keeps at (grow_heap n i)
  unfolding grow_heap
  grow_heap-Keeps zero i k b k' h = ground arith
  grow_heap-Keeps (suc n) i k b k' h =
      let (c, k₁, e₁, h₁) = and_then-eq-ok (load_proc k.curr_proc k) _ h in
      let (e, k₂, e₂, h₂) = and_then-eq-ok (from (get_elem? c.region1_pt i) k₁) _ h₁ in
      let (mapped, k₃, e₃, h₃) = and_then-eq-ok (heap_page i c e k₂) _ h₂ in
      let same₁ : SameTables at k k₂ = ground arith in
      let same : SameTables at k₂ k₃ = heap_page-Keeps i c e k₂ mapped k₃ (ground arith) e₃ in
      SameTables-trans at same₁ (
        SameTables-trans at same (
          if-Keeps at mapped (grow_heap n (i + 1)) (pure false) (grow_heap-Keeps n (i + 1))
            (pure-Keeps at false) k₃ b k' h₃))

  pub free_gap-Keeps : (n i : ℕ) → Keeps at (free_gap n i)
  unfolding free_gap
  free_gap-Keeps zero i k a k' h = ground arith
  free_gap-Keeps (suc n) i k a k' h = grind (arith, free_gap-Keeps n)

  pub brk-Keeps : (addr : ℕ) → Keeps at (brk addr)
  unfolding brk
  brk-Keeps addr k a k' h = grind (arith, grow_heap-Keeps, free_gap-Keeps)
