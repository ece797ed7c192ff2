-- ===== src/Program/Exec.antt =====
-- `Yalnix_Exec` of src/syscalls.c.
pub mod Frames
pub mod Loads
use yalnix_operating_system.Base.{
  ℕ, ◌-◌, ◌*◌, ◌/◌, ◌%◌, ◌^◌, Bool, false, ◌||◌, not, take, drop, length, Option, none, some, List,
  [], ◌∷◌, map, if◌then◌else◌, ◌==◌, update, replicate, null, error, success, word_mod,
}
use yalnix_operating_system.LinkedList.{NodeList, add_to_list}
use yalnix_operating_system.Kernel.State.{Kernel, Pte, Pcb}
use yalnix_operating_system.Kernel.Run.{
  M, ◌>>=◌, ◌>>◌, crash, pure, get, put, from, load_proc, store_proc,
}
use yalnix_operating_system.Kernel.Switch.{kernel_stack_page}
use yalnix_operating_system.Memory.Frames.{is_valid, free_frames, pfn_to_fnum, fnum_to_pfn}
use yalnix_operating_system.Program.Load.{Executable, load_program}

-- What the call finds outside the kernel: whether `malloc` has room for the copies of the name and of the
-- arguments, the file of that name, the arguments; the address of the array that `LoadProgram` works
-- in and of the buffer that `malloc` gives it.
pub record ExecArgs : Type 0 where
  pub copied : Bool
  pub file : Executable
  pub args : List (List ℕ)
  pub pagetable : ℕ
  pub argbuf : ℕ

-- A valid page of the old program, once its frame is given back.
abbrev pub blank_page : Pte → Pte
blank_page e = if is_valid e then record e { pfn = 0; valid = 0 } else e

-- What `pop` leaves and gives after a frame has been put at the end of the list.
abbrev pub give_and_take : ℕ → NodeList → ℕ × NodeList
give_and_take f [] = (f, [])
give_and_take f (n ∷ ns) = (n.id, add_to_list ns null f)

-- The loop that gives each page of the kernel stack another frame.
unfoldable pub renew_frames : List Pte → NodeList → List Pte × NodeList
renew_frames [] frames = ([], frames)
renew_frames (e ∷ es) frames =
    let (f, others) = give_and_take (pfn_to_fnum e.pfn) frames in
    let (renewed, left) = renew_frames es others in
    (record e { pfn = fnum_to_pfn f } ∷ renewed, left)

-- Whether one of the nodes stands for the frame of a page of `stack`.
abbrev pub maps_frame : List Pte → ℕ → Bool
maps_frame [] f = false
maps_frame (e ∷ es) f = pfn_to_fnum e.pfn == f || maps_frame es f

abbrev pub maps_any : List Pte → NodeList → Bool
maps_any stack [] = false
maps_any stack (n ∷ ns) = maps_frame stack n.id || maps_any stack ns

-- Whether the frames that a load has taken off the front of `before` are among those of the stack.
abbrev pub load_hits : (stack : List Pte) → (before after : NodeList) → Bool
load_hits stack before after = maps_any stack (take (length before - length after) before)

-- The loop over the kernel stack changes the table in the control block. `r0_pagetable`, by which the kernel
-- runs, maps the old frames on, though they are free now: if the new program gets one of them, the load
-- writes over the stack that it runs on, which is a fault.
unfoldable pub exec : ExecArgs → M ℕ
exec a = if not a.copied then pure error else do
  k ← get
  let proc = k.curr_proc
  u ← from (k.frame_at proc)
  c ← load_proc proc
  let (stack, frames) = renew_frames c.region0_pt (free_frames c.region1_pt k.frame_list)
  put (record k {
    frame_at = update k.frame_at proc (some (record u { regs = replicate 8 0 }));
    frame_list = frames;
  })
  store_proc proc
      (record c { kc_set = 0; region1_pt = map blank_page c.region1_pt; region0_pt = stack })
  rc ← load_program a.pagetable a.argbuf a.file a.args proc
  k'' ← get
  if load_hits (drop kernel_stack_page k.r0_pagetable) frames k''.frame_list
      then crash
      else if rc == success
      then (do
        c' ← load_proc proc
        k' ← get
        put (record k' { frame_at = update k'.frame_at proc (some c'.uc) })
        pure 0)
      else pure error
