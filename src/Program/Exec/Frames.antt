-- ===== src/Program/Exec/Frames.antt =====
-- What `Yalnix_Exec` does with the frames of the old program.
use mathlib.Core.List.{append_assoc, append-nil}
use yalnix_operating_system.Base.{
  ℕ, ◌-◌, false, length, drop, ◌<◌, ◌^◌, ◌≡◌, refl, sym, true, some, List, [], ◌∷◌, ◌++◌, map,
  arith, null, error, update, replicate,
}
use yalnix_operating_system.LinkedList.{NodeList, add_to_list}
use yalnix_operating_system.Kernel.State.{Kernel, Pte, Pcb, UserContext}
use yalnix_operating_system.Kernel.Run.{ok}
use yalnix_operating_system.Kernel.Procs.{ids, ids-add_to_list}
use yalnix_operating_system.Kernel.Switch.{kernel_stack_page}
use yalnix_operating_system.Memory.Frames.{is_valid, free_frames, pfn_to_fnum}
use yalnix_operating_system.Memory.Frames.Conserve.{frames_of, free_frames_lem, AreFrames}
use yalnix_operating_system.Program.Load.{no_file, load_image, load_program}
use yalnix_operating_system.Program.Exec.{ExecArgs, blank_page, renew_frames, load_hits, exec}

-- The frame of every page, valid or not.
abbrev pub all_frames : List Pte → List ℕ
all_frames [] = []
all_frames (e ∷ es) = pfn_to_fnum e.pfn ∷ all_frames es

AreFrames-add_to_list :
    (ns : NodeList) (d i : ℕ) → AreFrames ns → i < 2 ^ 19 → AreFrames (add_to_list ns d i)
AreFrames-add_to_list [] d i h lt = (lt, tt)
AreFrames-add_to_list (n ∷ ns) d i (x, h) lt = (x, AreFrames-add_to_list ns d i h lt)

-- The loop of an exec over the kernel stack, with frame numbers that fit an entry, deals as from
-- one queue: the frames that the pages get, followed by those that are left, are the free ones of
-- before followed by those that the pages had.
pub renew_frames_lem :
    (es : List Pte) (frames : NodeList)
    → AreFrames frames
    → all_frames (renew_frames es frames).0 ++ ids (renew_frames es frames).1
      ≡ ids frames ++ all_frames es
unfolding renew_frames
renew_frames_lem [] frames are = sym (append-nil (ids frames))
renew_frames_lem (e ∷ es) [] are = ground (arith, renew_frames_lem es [] tt)
renew_frames_lem (e ∷ es) (n ∷ ns) (lt, are) =
    let f : ℕ = pfn_to_fnum e.pfn in
    ground (
      arith,
      renew_frames_lem es (add_to_list ns null f)
          (AreFrames-add_to_list ns null f are (omega arith)),
      ids-add_to_list ns null f,
      append_assoc (ids ns) (f ∷ []) (all_frames es),
    )

AreFrames-free_frames :
    (es : List Pte) (frames : NodeList) → AreFrames frames → AreFrames (free_frames es frames)
unfolding free_frames
AreFrames-free_frames [] frames are = are
AreFrames-free_frames (e ∷ es) frames are =
    let f : ℕ = pfn_to_fnum e.pfn in
    ground (
      arith,
      AreFrames-free_frames es frames are,
      AreFrames-free_frames es (add_to_list frames null f)
          (AreFrames-add_to_list frames null f are (omega arith)),
    )

-- The frames that the old program leaves, and what the process and the list have of them.
abbrev pub Traded : (k : Kernel) (c : Pcb) (k' : Kernel) (c' : Pcb) → Type 0
Traded k c k' c' =
    all_frames c'.region0_pt ++ ids k'.frame_list
    ≡ (ids k.frame_list ++ frames_of is_valid c.region1_pt) ++ all_frames c.region0_pt

pub traded_lem :
    (k : Kernel) (c : Pcb)
    → AreFrames k.frame_list
    → let s = renew_frames c.region0_pt (free_frames c.region1_pt k.frame_list) in
      all_frames s.0 ++ ids s.1
      ≡ (ids k.frame_list ++ frames_of is_valid c.region1_pt) ++ all_frames c.region0_pt
traded_lem k c are =
    let free : NodeList = free_frames c.region1_pt k.frame_list in
    rw (renew_frames_lem c.region0_pt free (AreFrames-free_frames c.region1_pt k.frame_list are))
      (rw (free_frames_lem c.region1_pt k.frame_list) refl)

frames_of-blank_page : (es : List Pte) → frames_of is_valid (map blank_page es) ≡ []
frames_of-blank_page [] = refl
frames_of-blank_page (e ∷ es) = ground (arith, frames_of-blank_page es)

-- A load that takes no frame leaves the kernel stack alone.
pub no_hits : (stack : List Pte) (frames : NodeList) → load_hits stack frames frames ≡ false
no_hits stack frames = let e : length frames - length frames ≡ 0 = omega arith in rw e refl

module _ (a : ExecArgs) (k : Kernel) (u : UserContext) (c : Pcb) where
  -- An exec of a file that cannot be opened, with room for the copies of its arguments and frame
  -- numbers that fit an entry, returns -1 to a process that has no valid page in Region 1 any
  -- more, and leaves the page table register at the local array of `LoadProgram`; the frames of
  -- its kernel stack and the free ones are those that were free, those of its valid pages and
  -- those of its old kernel stack.
  pub exec_no_file :
      a.copied ≡ true
      → a.file ≡ no_file
      → k.frame_at k.curr_proc ≡ some u
      → k.procs k.curr_proc ≡ some c
      → AreFrames k.frame_list
      → (k' : Kernel) × (c' : Pcb) × (exec a k ≡ ok error k')
        × (k'.procs k.curr_proc ≡ some c')
        × (frames_of is_valid c'.region1_pt ≡ [])
        × (k'.ptbr1 ≡ a.pagetable)
        × (k'.curr_proc ≡ k.curr_proc)
        × Traded k c k' c'
  unfolding exec load_program load_image
  exec_no_file copied missing saved running are =
      let s : List Pte × NodeList =
        renew_frames c.region0_pt (free_frames c.region1_pt k.frame_list) in
      let c' : Pcb = record c {
        kc_set = 0;
        region1_pt = map blank_page c.region1_pt;
        region0_pt = s.0;
      } in
      let k' : Kernel = record k {
        frame_at = update k.frame_at k.curr_proc (some (record u { regs = replicate 8 0 }));
        frame_list = s.1;
        procs = update k.procs k.curr_proc (some c');
        ptbr1 = a.pagetable;
      } in
      (
        k',
        c',
        ground (arith, no_hits (drop kernel_stack_page k.r0_pagetable) s.1),
        ground arith,
        frames_of-blank_page c.region1_pt,
        refl,
        refl,
        traded_lem k c are,
      )
