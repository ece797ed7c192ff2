-- ===== src/Examples/FirstRun.antt =====
-- The boot with a program of one page of text and one of data.
use yalnix_operating_system.Base.{ℕ, ◌*◌, ◌^◌, ◌≡◌, arith, refl, some, [], ◌∷◌, replicate}
use yalnix_operating_system.LinkedList.{node, NodeList}
use yalnix_operating_system.Kernel.State.{Kernel, UserContext}
use yalnix_operating_system.Kernel.Run.{ok}
use yalnix_operating_system.Program.Load.{program, stack_pointer}
use yalnix_operating_system.Program.Load.Layout.{Layout}
use yalnix_operating_system.Boot.{BootArgs, no_page, kernel_start}
use yalnix_operating_system.System.Machine.{Reach}
use yalnix_operating_system.System.Ticks.{tick}
use yalnix_operating_system.System.Rounds.{user_mode}
use yalnix_operating_system.System.FirstRun.{boot-tick}
use yalnix_operating_system.Examples.Sample.{user}
use yalnix_operating_system.Examples.Programs.{info, args}
use yalnix_operating_system.Examples.Machine.{boot_args, switched_on}

abbrev with_file : BootArgs
with_file = record boot_args {
  pmem_size = 135 * 2 ^ 13;
  cmd_args = args;
  file = program info (some (1 ∷ [])) (some (2 ∷ []));
}

abbrev frame : ℕ → NodeList
frame f = node f 0 ∷ []

layout : Layout info args (replicate 128 no_page) (frame 132) (frame 133) (frame 134)
layout = record {
  before = [];
  text = no_page ∷ [];
  between = [];
  data_pages = no_page ∷ [];
  gap = replicate 125 no_page;
  stack = no_page ∷ [];
  parts = refl;
  whole = refl;
  guard = omega arith;
  text_at = refl;
  text_size = refl;
  data_at = refl;
  data_size = refl;
  stack_size = refl;
  text_frames = refl;
  data_frames = refl;
  stack_frames = refl;
}

boot-tick_example :
    (k₁ k₂ : Kernel) × (uc : UserContext) × (kernel_start with_file switched_on ≡ ok tt k₁)
    × (k₁.curr_proc ≡ 100)
    × (tick 0 user k₁ ≡ ok tt k₂)
    × (k₂.curr_proc ≡ 200)
    × (k₂.frame_at 200 ≡ some uc)
    × (uc.pc ≡ 2 ^ 20)
    × (uc.sp ≡ stack_pointer args)
    × (k₂.ready_procs ≡ node 0 100 ∷ [])
    × ((i : ℕ) × Reach (user_mode k₁) i (user_mode k₂))
boot-tick_example =
    boot-tick with_file 3 switched_on refl refl (ground arith) (ground arith) (ground arith) info
      (1 ∷ []) (2 ∷ []) (105 ∷ 110 ∷ []) ((120 ∷ []) ∷ []) (frame 132) (frame 133) (frame 134) []
      layout refl refl (ground arith) (omega arith) refl 0 user
