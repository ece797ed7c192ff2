-- ===== src/Program/Exec/Loads.antt =====
-- An exec of a program that can be loaded.
use mathlib.Core.List.{append_assoc}
use yalnix_operating_system.Base.{
  ℕ, suc, ◌-◌, ◌≤◌, ◌≡◌, ◌≢◌, refl, ap, sym, subst, ◌∙◌, true, false, some, List, [], ◌∷◌, ◌++◌,
  map, take, drop, length, length-append, replicate, arith, null, success, update,
}
use yalnix_operating_system.LinkedList.{NodeList}
use yalnix_operating_system.Kernel.State.{Kernel, Pte, Pcb, UserContext}
use yalnix_operating_system.Kernel.Run.{ok}
use yalnix_operating_system.Memory.Frames.{is_valid, free_frames}
use yalnix_operating_system.Memory.Frames.Conserve.{frames_of, AreFrames}
use yalnix_operating_system.Kernel.Procs.{ids}
use yalnix_operating_system.Memory.Pointers.{vmem_1_base}
use yalnix_operating_system.Program.Load.{LoadInfo, program, stack_pointer, load_program}
use yalnix_operating_system.Program.Load.Pages.{text_page}
use yalnix_operating_system.Program.Load.Layout.{Layout, with_sections}
use yalnix_operating_system.Program.Load.Image.{started, image_at, load_program_state}
use yalnix_operating_system.Program.Exec.{
  ExecArgs, blank_page, renew_frames, maps_frame, maps_any, load_hits, exec,
}
use yalnix_operating_system.Kernel.Switch.{kernel_stack_page}
use yalnix_operating_system.Program.Exec.Frames.{all_frames, traded_lem}

abbrev pub NotIn : ℕ → List ℕ → Type 0
NotIn f [] = Unit {0}
NotIn f (g ∷ gs) = (g ≢ f) × NotIn f gs

-- None of the free frames `ns` is a frame of a page of `stack`.
abbrev pub Unused : List Pte → NodeList → Type 0
Unused stack [] = Unit {0}
Unused stack (n ∷ ns) = NotIn n.id (all_frames stack) × Unused stack ns

maps_frame-NotIn :
    (stack : List Pte) (f : ℕ) → NotIn f (all_frames stack) → maps_frame stack f ≡ false
maps_frame-NotIn [] f out = refl
maps_frame-NotIn (e ∷ es) f (ne, out) = ground (arith, ne, maps_frame-NotIn es f out)

maps_any-Unused : (stack : List Pte) (ns : NodeList) → Unused stack ns → maps_any stack ns ≡ false
maps_any-Unused stack [] out = refl
maps_any-Unused stack (n ∷ ns) (one, out) =
    rw (maps_frame-NotIn stack n.id one) (maps_any-Unused stack ns out)

taken : (xs ys : NodeList) → take (length (xs ++ ys) - length ys) (xs ++ ys) ≡ xs
taken [] ys = let e : length ys - length ys ≡ 0 = omega arith in rw e refl
taken (x ∷ xs) ys =
    let e : length (x ∷ (xs ++ ys)) - length ys ≡ suc (length (xs ++ ys) - length ys) =
      omega (arith, length-append xs ys) in
    rw e (ap (◌∷◌ x) (taken xs ys))

-- A load that takes unused frames leaves the kernel stack alone.
load_hits-Unused :
    (stack : List Pte) (before used rest : NodeList)
    → before ≡ used ++ rest
    → Unused stack used
    → load_hits stack before rest ≡ false
load_hits-Unused stack before used rest e out =
    rw (e, taken used rest) (maps_any-Unused stack used out)

module _ (a : ExecArgs) (k : Kernel) (u : UserContext) (c : Pcb) (li : LoadInfo) (t d : List ℕ)
    (ft fd fs rest : NodeList) (l : Layout li a.args (map blank_page c.region1_pt) ft fd fs) where
  -- The process without its old program.
  abbrev emptied : Pcb
  emptied = record c {
    kc_set = 0;
    region1_pt = map blank_page c.region1_pt;
    region0_pt = (renew_frames c.region0_pt (free_frames c.region1_pt k.frame_list)).0;
  }

  abbrev before_load : Kernel
  before_load = record k {
    frame_at = update k.frame_at k.curr_proc (some (record u { regs = replicate 8 0 }));
    frame_list = (renew_frames c.region0_pt (free_frames c.region1_pt k.frame_list)).1;
    procs = update k.procs k.curr_proc (some emptied);
  }

  abbrev renewed : Pcb
  renewed = started li t d a.args ft fd fs rest k.curr_proc emptied l

  exec_as :
      (k₁ : Kernel)
      → a.copied ≡ true
      → k.frame_at k.curr_proc ≡ some u
      → k.procs k.curr_proc ≡ some c
      → load_program a.pagetable a.argbuf a.file a.args k.curr_proc before_load ≡ ok success k₁
      → k₁.procs k.curr_proc ≡ some renewed
      → load_hits (drop kernel_stack_page k.r0_pagetable) before_load.frame_list k₁.frame_list
        ≡ false
      → exec a k ≡ ok 0 (record k₁ { frame_at = update k₁.frame_at k.curr_proc (some renewed.uc) })
  unfolding exec
  exec_as k₁ copied saved running load there clear =
      simp (copied, saved, running, load, clear, there) refl

  -- An exec with room for the copies of its arguments, of an executable that can be read and that
  -- begins in Region 1, with a buffer for the arguments, frame numbers that fit an entry, and free
  -- frames for text, data and stack once the old ones are given back and the table of the kernel
  -- stack in the control block is renewed, none of them a frame that `r0_pagetable` maps for the
  -- kernel stack it runs on, returns 0 to the process that runs. Its page table is that of the
  -- program, its trap frame has the entry point and the stack pointer, and the page table register
  -- is restored. `r0_pagetable` is unchanged: until the next switch the process runs on the old
  -- kernel stack. The frames of the renewed table in the control block, of the sections and of the
  -- free list are those that were free, those of the old valid pages and those of the old table in
  -- the control block.
  pub exec_lem :
      a.copied ≡ true
      → a.file ≡ program li (some t) (some d)
      → a.argbuf ≢ null
      → vmem_1_base ≤ li.entry
      → k.frame_at k.curr_proc ≡ some u
      → k.procs k.curr_proc ≡ some c
      → AreFrames k.frame_list
      → (renew_frames c.region0_pt (free_frames c.region1_pt k.frame_list)).1
        ≡ ft ++ (fd ++ (fs ++ rest))
      → Unused (drop kernel_stack_page k.r0_pagetable) (ft ++ (fd ++ fs))
      → (k' : Kernel) × (c' : Pcb) × (exec a k ≡ ok 0 k')
        × (k'.curr_proc ≡ k.curr_proc)
        × (k'.procs k.curr_proc ≡ some c')
        × (c'.region1_pt
            ≡ with_sections li a.args (map blank_page c.region1_pt) ft fd fs rest l text_page)
        × (k'.frame_at k.curr_proc ≡ some c'.uc)
        × (c'.uc.pc ≡ li.entry)
        × (c'.uc.sp ≡ stack_pointer a.args)
        × (k'.ptbr1 ≡ k.ptbr1)
        × (k'.r0_pagetable ≡ k.r0_pagetable)
        × (all_frames c'.region0_pt ++ ids (ft ++ (fd ++ (fs ++ k'.frame_list)))
            ≡ (ids k.frame_list ++ frames_of is_valid c.region1_pt) ++ all_frames c.region0_pt)
  exec_lem copied file room entry saved running are parts unused =
      let (log, run) =
        load_program_state li t d a.args ft fd fs rest k.curr_proc emptied l a.pagetable a.argbuf
          before_load room entry (ground arith) parts in
      let k₁ : Kernel =
        image_at li t d a.args ft fd fs rest k.curr_proc emptied l k.ptbr1 before_load log in
      let sections : ft ++ (fd ++ (fs ++ rest)) ≡ (ft ++ (fd ++ fs)) ++ rest =
        ap (λ ns. ft ++ ns) (sym (append_assoc fd fs rest))
        ∙ sym (append_assoc ft (fd ++ fs) rest) in
      (
        record k₁ { frame_at = update k₁.frame_at k.curr_proc (some renewed.uc) },
        renewed,
        exec_as k₁ copied saved running
            (subst
              (λ f.
                load_program a.pagetable a.argbuf f a.args k.curr_proc before_load ≡ ok success k₁)
              (sym file) run)
            (ground arith)
            (load_hits-Unused (drop kernel_stack_page k.r0_pagetable) before_load.frame_list
              (ft ++ (fd ++ fs)) rest (parts ∙ sections) unused),
        refl,
        ground arith,
        refl,
        ground arith,
        refl,
        refl,
        refl,
        refl,
        subst
            (λ ns.
              all_frames emptied.region0_pt ++ ids ns
              ≡ (ids k.frame_list ++ frames_of is_valid c.region1_pt) ++ all_frames c.region0_pt)
            parts (traded_lem k c are),
      )
