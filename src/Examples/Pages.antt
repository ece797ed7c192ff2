-- ===== src/Examples/Pages.antt =====
-- Frames, page tables and pointers.
use yalnix_operating_system.Base.{
  length, ◌+◌, true, ◌≤◌, ◌<◌, ◌^◌, ◌≡◌, ◌≢◌, ◌++◌, Bool, arith, refl, true, some, [], ◌∷◌,
  replicate, update, get_elem?, success,
}
use yalnix_operating_system.LinkedList.{node}
use yalnix_operating_system.Kernel.State.{Kernel, Pcb, Pte}
use yalnix_operating_system.Kernel.Run.{ok}
use yalnix_operating_system.Kernel.Procs.{ids}
use yalnix_operating_system.Kernel.Switch.{kernel_stack_page}
use yalnix_operating_system.Memory.Frames.{Given, is_valid, give_frames, copy_pages}
use yalnix_operating_system.Memory.Frames.Conserve.{frames_of, give_frames_lem, give_frames-enough}
use yalnix_operating_system.Memory.Frames.Copy.{Copied, copy_pages_lem, copy_pages_other}
use yalnix_operating_system.Memory.Pointers.{chk_page, chk_pages, chk_str}
use yalnix_operating_system.Memory.Pointers.Gaps.{chk_page_lem, chk_str_short, chk_str_pages}
use yalnix_operating_system.Memory.Brk.{set_kernel_brk}
use yalnix_operating_system.Memory.Brk.Bounds.{set_kernel_brk_lem}
use yalnix_operating_system.Trap.{grow_stack}
use yalnix_operating_system.Trap.Stack.{Grown, grow_stack_lem}
use yalnix_operating_system.Examples.Sample.{kernel, child, page, no_page}

abbrev two_of_three : Given
two_of_three = record {
  table = page 30 ∷ record { valid = 0; prot = 0; pfn = 0 } ∷ page 31 ∷ [];
  frames = node 32 0 ∷ [];
  enough = true;
}

give_frames_lem_example :
    30 ∷ 31 ∷ 32 ∷ []
    ≡ frames_of is_valid
        (give_frames is_valid (page 20 ∷ no_page ∷ page 21 ∷ []) kernel.frame_list).table
      ++ ids (give_frames is_valid (page 20 ∷ no_page ∷ page 21 ∷ []) kernel.frame_list).frames
give_frames_lem_example =
    give_frames_lem is_valid (page 20 ∷ no_page ∷ page 21 ∷ []) kernel.frame_list (λ e f. refl)
      (omega arith, (omega arith, (omega arith, tt)))
      (give_frames-enough is_valid (page 20 ∷ no_page ∷ page 21 ∷ []) kernel.frame_list)

copy_pages_lem_example :
    Copied is_valid
      (page 20 ∷ page 21 ∷ [])
      (page 30 ∷ page 31 ∷ [])
      (λ f. f)
      (copy_pages is_valid (page 20 ∷ page 21 ∷ []) (page 30 ∷ page 31 ∷ []) (λ f. f))
copy_pages_lem_example =
    copy_pages_lem is_valid (page 20 ∷ page 21 ∷ []) (page 30 ∷ page 31 ∷ []) (λ f. f)
      ((ground arith, tt), (tt, tt))
      ((ground arith, (ground arith, tt)), ((ground arith, (ground arith, tt)), tt))

copy_pages_other_example :
    copy_pages is_valid (page 20 ∷ page 21 ∷ []) (page 30 ∷ page 31 ∷ []) (λ f. f) 21 ≡ 21
copy_pages_other_example =
    copy_pages_other is_valid (page 20 ∷ page 21 ∷ []) (page 30 ∷ page 31 ∷ []) (λ f. f) 21
      (ground arith, (ground arith, tt))

first_page : chk_page (2 ^ 20) kernel ≡ ok 0 kernel
first_page = chk_page_lem kernel (2 ^ 20) (page 20) (omega arith) (omega arith) (child, refl, refl)

chk_page_lem_example : chk_page (2 ^ 20) kernel ≡ ok 0 kernel
chk_page_lem_example =
    chk_page_lem kernel (2 ^ 20) (page 20) (omega arith) (omega arith) (child, refl, refl)

chk_str_short_example : chk_str 0 100 kernel ≡ ok 0 kernel
chk_str_short_example = chk_str_short kernel 0 100 (omega arith)

passes : chk_str (2 ^ 20) 8192 kernel ≡ ok 0 kernel
unfolding chk_str chk_pages
passes = ground (arith, first_page)

chk_str_pages_example : chk_page (2 ^ 20) kernel ≡ ok 0 kernel
chk_str_pages_example =
    chk_str_pages kernel (2 ^ 20) 8192 kernel 0 (omega arith) refl passes (omega arith)

set_kernel_brk_lem_example :
    (k' : Kernel) × (e' : Pte) × (set_kernel_brk 8192 kernel ≡ ok success k')
    × (k'.kernel_brk ≡ 8192)
    × (get_elem? k'.r0_pagetable 1 ≡ some e')
    × (e'.prot ≡ 0)
    × (e'.pfn ≡ 0)
    × (1 ≤ 1 → e'.valid ≡ 1)
    × (1 < 1 → 1 < kernel_stack_page → e'.valid ≢ 1)
    × (1 < 1 → kernel_stack_page ≤ 1 → e'.valid ≡ 0)
set_kernel_brk_lem_example =
    set_kernel_brk_lem kernel 8192 1 no_page (ground arith) (omega arith) (omega arith) refl

abbrev small_proc : Pcb
small_proc = record child { region1_pt = replicate 128 no_page }

abbrev small_kernel : Kernel
small_kernel = record kernel { procs = update kernel.procs 100 (some small_proc) }

grow_stack_lem_example :
    (b : Bool) × (k' : Kernel) × (c' : Pcb) × (grow_stack 1 2 127 small_kernel ≡ ok b k')
    × (k'.procs 100 ≡ some c')
    × (b ≡ true)
    × (b ≡ true → length k'.frame_list + 1 ≡ 3)
    × Grown 2 127 b (replicate 128 no_page) c'.region1_pt
grow_stack_lem_example = grow_stack_lem 2 127 small_kernel small_proc refl refl (omega arith)
