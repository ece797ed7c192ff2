-- ===== src/Memory/Frames.antt =====
-- The loops of src/syscalls.c that take physical frames off `FrameList` for a page table, give them
-- back, and copy one process's pages into another's. In the frame list a node's `id` is the frame.
pub mod Conserve
pub mod Copy
use yalnix_operating_system.Base.{
  ℕ, ◌*◌, ◌/◌, ◌%◌, ◌^◌, Bool, true, false, List, [], ◌∷◌, if◌then◌else◌, ◌==◌, null, word_mod,
}
use yalnix_operating_system.LinkedList.{ListNode, NodeList, add_to_list}
use yalnix_operating_system.Kernel.State.{Pte}

-- `PFN_TO_FNUM` and `FNUM_TO_PFN`, on 32-bit words.
abbrev pub pfn_to_fnum : ℕ → ℕ
pfn_to_fnum n = n * 2 ^ 13 % word_mod / 2 ^ 13

abbrev pub fnum_to_pfn : ℕ → ℕ
fnum_to_pfn n = n * 2 ^ 13 % word_mod / 2 ^ 13

abbrev pub is_valid : Pte → Bool
is_valid e = e.valid == 1

-- The loop over a page table that gives each valid page's frame back, from the first page on.
unfoldable pub free_frames : List Pte → NodeList → NodeList
free_frames [] frames = frames
free_frames (e ∷ es) frames =
    free_frames es (if is_valid e then add_to_list frames null (pfn_to_fnum e.pfn) else frames)

-- What a loop that hands frames out leaves: the page table, the free frames, and whether they
-- were enough. Where they were not, the pages that were not reached keep their old entries.
pub record Given : Type 0 where
  pub table : List Pte
  pub frames : NodeList
  pub enough : Bool

abbrev with_page : Pte → Given → Given
with_page e g = record g { table = e ∷ g.table }

-- A new frame for each page that is wanted; the frame number of any other page becomes 0.
unfoldable pub give_frames : (Pte → Bool) → List Pte → NodeList → Given
give_frames want [] frames = record { table = []; frames = frames; enough = true }
give_frames want (e ∷ es) [] =
    let g = give_frames want es [] in
    if want e
    then record { table = e ∷ es; frames = []; enough = false }
    else with_page (record e { pfn = 0 }) g
give_frames want (e ∷ es) (n ∷ ns) =
    let g = give_frames want es ns in
    let h = give_frames want es (n ∷ ns) in
    if want e
    then with_page (record e { pfn = fnum_to_pfn n.id }) g
    else with_page (record e { pfn = 0 }) h

abbrev pub write_frame : (ℕ → ℕ) → ℕ → ℕ → ℕ → ℕ
write_frame phys f v g = if f == g then v else phys g

-- `memcpy` of each wanted page, from the frame that the source table maps to the frame that the
-- destination's table maps, through the page below the kernel stack.
unfoldable pub copy_pages : (Pte → Bool) → (from to : List Pte) → (ℕ → ℕ) → ℕ → ℕ
copy_pages want [] to phys = phys
copy_pages want (s ∷ ss) [] phys = phys
copy_pages want (s ∷ ss) (d ∷ ds) phys =
    copy_pages want ss ds
      (if want d then write_frame phys (pfn_to_fnum d.pfn) (phys (pfn_to_fnum s.pfn)) else phys)
