-- ===== src/Examples/Programs.antt =====
-- A program of one page of text and one of data, and an exec of a file that does not exist.
use yalnix_operating_system.Base.{
  ℕ, ◌+◌, ◌≡◌, ◌≤◌, ◌*◌, ◌%◌, ◌^◌, arith, refl, true, some, List, [], ◌∷◌, replicate, update,
  length, success, error,
}
use yalnix_operating_system.LinkedList.{node, NodeList}
use yalnix_operating_system.Kernel.State.{Kernel, Pcb}
use yalnix_operating_system.Kernel.Run.{ok}
use yalnix_operating_system.Memory.Frames.{is_valid}
use yalnix_operating_system.Memory.Frames.Conserve.{frames_of}
use yalnix_operating_system.Memory.Pointers.{vmem_1_base, vmem_1_limit, page_size}
use yalnix_operating_system.Program.Load.{
  LoadInfo, program, no_file, stack_pointer, stack_npg, args_start, args_size, load_program,
}
use yalnix_operating_system.Program.Load.Pages.{text_page}
use yalnix_operating_system.Program.Load.Layout.{Layout, with_sections}
use yalnix_operating_system.Program.Load.Image.{load_program_lem}
use yalnix_operating_system.Program.Load.Args.{args_layout}
use yalnix_operating_system.Program.Exec.{ExecArgs, exec}
use yalnix_operating_system.Program.Exec.Frames.{Traded, exec_no_file}
use yalnix_operating_system.Examples.Sample.{kernel, user, child, no_page}

abbrev pub info : LoadInfo
info = record {
  entry = 2 ^ 20;
  t_vaddr = 2 ^ 20;
  t_npg = 1;
  id_vaddr = 2 ^ 20 + 2 ^ 13;
  id_npg = 1;
  id_end = 2 ^ 20 + 2 ^ 13 + 100;
  ud_npg = 0;
  ud_end = 2 ^ 20 + 2 ^ 14;
}

abbrev pub args : List (List ℕ)
args = (105 ∷ 110 ∷ []) ∷ (120 ∷ []) ∷ []

abbrev blank : Pcb
blank = record child { region1_pt = replicate 128 no_page }

abbrev frame : ℕ → NodeList
frame f = node f 0 ∷ []

layout : Layout info args (replicate 128 no_page) (frame 30) (frame 31) (frame 32)
layout = record {
  before = [];
  text = no_page ∷ [];
  between = [];
  data_pages = no_page ∷ [];
  gap = replicate 125 no_page;
  stack = no_page ∷ [];
  parts = refl;
  whole = refl;
  guard = omega arith;
  text_at = refl;
  text_size = refl;
  data_at = refl;
  data_size = refl;
  stack_size = refl;
  text_frames = refl;
  data_frames = refl;
  stack_frames = refl;
}

abbrev loading : Kernel
loading = record kernel { procs = update kernel.procs 100 (some blank) }

load_program_lem_example :
    (k' : Kernel) × (p : Pcb) × (load_program 7100 7200
        (program info (some (1 ∷ [])) (some (2 ∷ [])))
        args
        100
        loading
      ≡ ok success k')
    × (k'.procs 100 ≡ some p)
    × (p.region1_pt
        ≡ with_sections info args
            (replicate 128 no_page)
            (frame 30)
            (frame 31)
            (frame 32)
            []
            layout
            text_page)
    × (p.uc.pc ≡ 2 ^ 20)
    × (p.uc.sp ≡ stack_pointer args)
    × (k'.frame_list ≡ [])
    × (k'.ptbr1 ≡ 0)
load_program_lem_example =
    load_program_lem info (1 ∷ []) (2 ∷ []) args (frame 30) (frame 31) (frame 32) [] 100 blank
      layout 7100 7200 loading (ground arith) (omega arith) refl refl

args_layout_example :
    (vmem_1_base ≤ stack_pointer args)
    × (stack_pointer args % 8 ≡ 0)
    × (stack_pointer args + 4 * (length args + 3) ≤ args_start args)
    × (args_start args + args_size args ≡ vmem_1_limit)
    × (vmem_1_limit ≤ stack_pointer args + stack_npg args * page_size)
    × (stack_npg args ≤ 128)
args_layout_example = args_layout args (omega arith)

abbrev call : ExecArgs
call = record { copied = true; file = no_file; args = args; pagetable = 7100; argbuf = 7200 }

exec_no_file_example :
    (k' : Kernel) × (c' : Pcb) × (exec call kernel ≡ ok error k')
    × (k'.procs 100 ≡ some c')
    × (frames_of is_valid c'.region1_pt ≡ [])
    × (k'.ptbr1 ≡ 7100)
    × (k'.curr_proc ≡ 100)
    × Traded kernel child k' c'
exec_no_file_example =
    exec_no_file call kernel user child refl refl refl refl
      (omega arith, (omega arith, (omega arith, tt)))
