-- ===== src/Memory/Frames/Conserve.antt =====
-- No frame is lost or made by the loops that hand frames out and take them back.
use mathlib.Core.List.{append_assoc, append-nil}
use yalnix_operating_system.Base.{
  ℕ, ◌<◌, ◌^◌, ◌≡◌, refl, sym, Bool, true, List, [], ◌∷◌, ◌++◌, arith, length, if◌then◌else◌, leb,
  null,
}
use yalnix_operating_system.LinkedList.{NodeList, add_to_list}
use yalnix_operating_system.Kernel.State.{Pte}
use yalnix_operating_system.Kernel.Procs.{ids, ids-add_to_list}
use yalnix_operating_system.Memory.Frames.{
  is_valid, free_frames, give_frames, pfn_to_fnum, fnum_to_pfn,
}

-- The frames of the wanted pages, first page first.
abbrev pub frames_of : (Pte → Bool) → List Pte → List ℕ
frames_of want [] = []
frames_of want (e ∷ es) =
    if want e then pfn_to_fnum e.pfn ∷ frames_of want es else frames_of want es

-- Frame numbers fit the field of a page table entry.
abbrev pub AreFrames : NodeList → Type 0
AreFrames [] = Unit {0}
AreFrames (n ∷ ns) = (n.id < 2 ^ 19) × AreFrames ns

-- Giving the frames of a page table back adds the frames of its valid pages to the end of the free
-- frames, in the order of the pages.
pub free_frames_lem :
    (es : List Pte) (frames : NodeList)
    → ids (free_frames es frames) ≡ ids frames ++ frames_of is_valid es
unfolding free_frames
free_frames_lem [] frames = sym (append-nil (ids frames))
free_frames_lem (e ∷ es) frames =
    let f : ℕ = pfn_to_fnum e.pfn in
    ground (
      arith,
      free_frames_lem es frames,
      free_frames_lem es (add_to_list frames null f),
      ids-add_to_list frames null f,
      append_assoc (ids frames) (f ∷ []) (frames_of is_valid es),
    )

-- The loop that hands out frames succeeds exactly when there are at least as many free frames as
-- wanted pages.
pub give_frames-enough :
    (want : Pte → Bool) (es : List Pte) (frames : NodeList)
    → (give_frames want es frames).enough ≡ leb (length (frames_of want es)) (length frames)
unfolding give_frames
give_frames-enough want [] frames = ground arith
give_frames-enough want (e ∷ es) [] = ground (arith, give_frames-enough want es [])
give_frames-enough want (e ∷ es) (n ∷ ns) =
    ground (arith, give_frames-enough want es ns, give_frames-enough want es (n ∷ ns))

-- If the loop that hands out frames succeeds, for a test that does not look at frame numbers and
-- free frames whose numbers fit an entry, the free frames of before are those of the wanted pages,
-- in the pages' order, followed by those that are free afterwards: none is lost, made or given
-- twice.
pub give_frames_lem :
    (want : Pte → Bool) (es : List Pte) (frames : NodeList)
    → ((e : Pte) (f : ℕ) → want (record e { pfn = f }) ≡ want e)
    → AreFrames frames
    → (give_frames want es frames).enough ≡ true
    → ids frames
      ≡ frames_of want (give_frames want es frames).table ++ ids (give_frames want es frames).frames
unfolding give_frames
give_frames_lem want [] frames by are ok = refl
give_frames_lem want (e ∷ es) [] by are ok =
    ground (arith, give_frames_lem want es [] by tt, by e 0)
give_frames_lem want (e ∷ es) (n ∷ ns) by are ok = ground (
  arith,
  give_frames_lem want es ns by are.1,
  give_frames_lem want es (n ∷ ns) by are,
  by e 0,
  by e (fnum_to_pfn n.id),
)
