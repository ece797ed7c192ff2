-- ===== src/Examples/Exec.antt =====
-- An exec of a program of one page of text and one of data.
use yalnix_operating_system.Base.{
  ℕ, ◌^◌, ◌≡◌, ◌++◌, arith, refl, true, some, List, [], ◌∷◌, map, drop, replicate, update,
}
use yalnix_operating_system.LinkedList.{node, NodeList}
use yalnix_operating_system.Kernel.State.{Kernel, Pcb, Pte}
use yalnix_operating_system.Kernel.Run.{ok}
use yalnix_operating_system.Kernel.Procs.{ids}
use yalnix_operating_system.Memory.Frames.{free_frames}
use yalnix_operating_system.Program.Load.{program, stack_pointer}
use yalnix_operating_system.Program.Load.Pages.{text_page}
use yalnix_operating_system.Program.Load.Layout.{Layout, with_sections}
use yalnix_operating_system.Program.Exec.{ExecArgs, blank_page, renew_frames, exec}
use yalnix_operating_system.Program.Exec.Frames.{all_frames}
use yalnix_operating_system.Program.Exec.Loads.{Unused, exec_lem}
use yalnix_operating_system.Examples.Sample.{kernel, user, child, page, no_page}
use yalnix_operating_system.Examples.Programs.{info, args}

abbrev old_pages : List Pte
old_pages = page 20 ∷ replicate 127 no_page

abbrev old : Pcb
old = record child { region1_pt = old_pages }

abbrev running : Kernel
running = record kernel {
  procs = update kernel.procs 100 (some old);
  frame_list = node 30 0 ∷ node 31 0 ∷ node 32 0 ∷ node 33 0 ∷ node 34 0 ∷ [];
  r0_pagetable = replicate 126 no_page ++ (page 10 ∷ page 11 ∷ []);
}

abbrev call : ExecArgs
call = record {
  copied = true;
  file = program info (some (1 ∷ [])) (some (2 ∷ []));
  args = args;
  pagetable = 7100;
  argbuf = 7200;
}

-- The frames of the old program's page and of the kernel stack, which are free in the end.
abbrev old_frames : NodeList
old_frames = node 20 0 ∷ node 10 0 ∷ node 11 0 ∷ []

abbrev frame : ℕ → NodeList
frame f = node f 0 ∷ []

layout : Layout info args (map blank_page old_pages) (frame 32) (frame 33) (frame 34)
layout = record {
  before = [];
  text = blank_page (page 20) ∷ [];
  between = [];
  data_pages = no_page ∷ [];
  gap = replicate 125 no_page;
  stack = no_page ∷ [];
  parts = refl;
  whole = refl;
  guard = omega arith;
  text_at = refl;
  text_size = refl;
  data_at = refl;
  data_size = refl;
  stack_size = refl;
  text_frames = refl;
  data_frames = refl;
  stack_frames = refl;
}

left :
    (renew_frames old.region0_pt (free_frames old_pages running.frame_list)).1
    ≡ frame 32 ++ (frame 33 ++ (frame 34 ++ old_frames))
unfolding renew_frames free_frames
left = refl

unused : Unused (drop 126 running.r0_pagetable) (frame 32 ++ (frame 33 ++ frame 34))
unused = (
  (ground arith, (ground arith, tt)),
  ((ground arith, (ground arith, tt)), ((ground arith, (ground arith, tt)), tt)),
)

exec_lem_example :
    (k' : Kernel) × (c' : Pcb) × (exec call running ≡ ok 0 k')
    × (k'.curr_proc ≡ 100)
    × (k'.procs 100 ≡ some c')
    × (c'.region1_pt
        ≡ with_sections info args
            (map blank_page old_pages)
            (frame 32)
            (frame 33)
            (frame 34)
            old_frames
            layout
            text_page)
    × (k'.frame_at 100 ≡ some c'.uc)
    × (c'.uc.pc ≡ 2 ^ 20)
    × (c'.uc.sp ≡ stack_pointer args)
    × (k'.ptbr1 ≡ 0)
    × (k'.r0_pagetable ≡ running.r0_pagetable)
    × (all_frames c'.region0_pt ++ ids (frame 32 ++ (frame 33 ++ (frame 34 ++ k'.frame_list)))
        ≡ 30 ∷ 31 ∷ 32 ∷ 33 ∷ 34 ∷ 20 ∷ 10 ∷ 11 ∷ [])
exec_lem_example =
    exec_lem call running user old info (1 ∷ []) (2 ∷ []) (frame 32) (frame 33) (frame 34)
      old_frames layout refl refl (ground arith) (omega arith) refl refl
      (omega arith, (omega arith, (omega arith, (omega arith, (omega arith, tt))))) left unused
