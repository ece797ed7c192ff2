-- ===== src/System/FirstRun.antt =====
-- The boot with a program on the command line, and the first clock tick after it.
use yalnix_operating_system.Base.{
  ℕ, suc, ◌+◌, ◌-◌, ◌/◌, ◌≤◌, ◌≡◌, ◌≢◌, refl, sym, ap, subst, ◌∙◌, false, true, some, List, [], ◌∷◌,
  ◌++◌, arith, null, ◌==◌, update, success,
}
use yalnix_operating_system.LinkedList.{node, NodeList, add_to_list}
use yalnix_operating_system.Kernel.State.{Kernel, Pcb, UserContext, Event}
use yalnix_operating_system.Kernel.Run.{ok, M, ◌>>◌}
use yalnix_operating_system.Memory.Pointers.{page_size, region_pages, vmem_1_base}
use yalnix_operating_system.Process.Fork.{new_process}
use yalnix_operating_system.Program.Load.{LoadInfo, program, stack_pointer, load_program}
use yalnix_operating_system.Program.Load.Layout.{Layout}
use yalnix_operating_system.Program.Load.Image.{started, image_at, load_program_state}
use yalnix_operating_system.Boot.{
  BootArgs, make_ttys, list_frames, take_frame, init_queues, init_tables, make_idle, make_init,
  start_init, run_idle, kernel_start,
}
use yalnix_operating_system.Boot.Start.{free_from, list_frames_lem, after, idle_pcb, init_pcb}
use yalnix_operating_system.System.Machine.{Reach}
use yalnix_operating_system.System.Ring.{Job, Ring}
use yalnix_operating_system.System.Ticks.{tick}
use yalnix_operating_system.System.Rounds.{user_mode, tick-rotate}

abbrev start_rest : BootArgs → M (Unit {0})
start_rest a = do start_init a a.cmd_args; run_idle a

starts :
    (a : BootArgs) (name : List ℕ) (args : List (List ℕ)) (idle init : Pcb) (k k₁ : Kernel)
    → a.cmd_args ≡ name ∷ args
    → load_program a.proc_pagetable a.argbuf a.file (name ∷ args) a.init_proc k ≡ ok success k₁
    → k₁.procs a.idle_proc ≡ some idle
    → k₁.procs a.init_proc ≡ some init
    → start_rest a k
      ≡ ok tt (record k₁ {
        all_procs =
            add_to_list
              (add_to_list k₁.all_procs a.init_proc init.proc_id)
              a.idle_proc
              idle.proc_id;
        ready_procs = add_to_list k₁.ready_procs a.init_proc init.proc_id;
        curr_proc = a.idle_proc;
        frame_at = update k₁.frame_at a.idle_proc (some idle.uc);
      })
unfolding start_init run_idle
starts a name args idle init k k₁ line load at_idle at_init =
    simp (line, load, at_idle, at_init) refl

module _ (a : BootArgs) (n : ℕ) (k : Kernel) (memory : a.pmem_size / page_size ≡ 132 + n)
    (fresh : k.frame_list ≡ []) (not_null : a.idle_proc ≢ null) (init_not_null : a.init_proc ≢ null)
    (other : a.idle_proc ≢ a.init_proc) where
  frames :
      list_frames (a.pmem_size / page_size - region_pages) region_pages k.frame_list
      ≡ node 128 null ∷ node 129 null ∷ node 130 null ∷ node 131 null ∷ free_from n 132
  frames =
      let e : a.pmem_size / page_size - region_pages ≡ suc (suc (suc (suc n))) = omega arith in
      rw e (rw fresh (list_frames_lem (suc (suc (suc (suc n)))) 128 []))

  -- The boot up to the two processes.
  made : Kernel
  made =
      after
        ((init_queues a >> (make_ttys a.tty 4 0 >> (init_tables a >> (make_idle a >> make_init a))))
          k)
        k

  boots_on : kernel_start a k ≡ start_rest a made
  unfolding kernel_start made init_queues make_ttys take_frame init_tables make_idle make_init
      new_process
  boots_on =
      let e : (a.idle_proc == null) ≡ false = ground arith in
      let f : (a.init_proc == null) ≡ false = ground arith in
      let g : (a.idle_proc == a.init_proc) ≡ false = ground arith in
      let h : (a.init_proc == a.idle_proc) ≡ false = ground arith in
      let b : (a.idle_proc == a.idle_proc) ≡ true = ground arith in
      let c : (a.init_proc == a.init_proc) ≡ true = ground arith in
      simp (frames, e, f, g, h, b, c) refl

  made_lem :
      (made.procs a.idle_proc ≡ some (idle_pcb a k))
      × (made.procs a.init_proc ≡ some (init_pcb a))
      × (made.frame_list ≡ free_from n 132)
      × (made.ready_procs ≡ [])
      × (made.blocked_procs ≡ [])
  unfolding made init_queues make_ttys take_frame init_tables make_idle make_init new_process
  made_lem =
      let e : (a.idle_proc == null) ≡ false = ground arith in
      let f : (a.init_proc == null) ≡ false = ground arith in
      let g : (a.idle_proc == a.init_proc) ≡ false = ground arith in
      let h : (a.init_proc == a.idle_proc) ≡ false = ground arith in
      let b : (a.idle_proc == a.idle_proc) ≡ true = ground arith in
      let c : (a.init_proc == a.init_proc) ≡ true = ground arith in
      (
        simp (frames, e, f, g, h, b, c) refl,
        simp (frames, e, f, g, h, b, c) refl,
        simp (frames, e, f, g, h, b, c) refl,
        simp (frames, e, f, g, h, b, c) refl,
        simp (frames, e, f, g, h, b, c) refl,
      )

  module _ (li : LoadInfo) (t d : List ℕ) (name : List ℕ) (args : List (List ℕ))
      (ft fd fs rest : NodeList) (l : Layout li (name ∷ args) (init_pcb a).region1_pt ft fd fs)
      (line : a.cmd_args ≡ name ∷ args) (file : a.file ≡ program li (some t) (some d))
      (room : a.argbuf ≢ null) (entry : vmem_1_base ≤ li.entry)
      (free : free_from n 132 ≡ ft ++ (fd ++ (fs ++ rest))) where
    abbrev idle_job : Job
    idle_job = record { id = 0; item = a.idle_proc; uc = (idle_pcb a k).uc }

    abbrev program_uc : UserContext
    program_uc = (started li t d (name ∷ args) ft fd fs rest a.init_proc (init_pcb a) l).uc

    abbrev init_job : Job
    init_job = record { id = 1; item = a.init_proc; uc = program_uc }

    -- The kernel once the program is loaded, and once idle runs.
    abbrev with_program : List Event → Kernel
    with_program log =
        image_at li t d (name ∷ args) ft fd fs rest a.init_proc (init_pcb a) l made.ptbr1 made log

    abbrev launched : List Event → Kernel
    launched log =
        let k₁ = with_program log in
        record k₁ {
          all_procs = add_to_list (add_to_list k₁.all_procs a.init_proc 1) a.idle_proc 0;
          ready_procs = add_to_list k₁.ready_procs a.init_proc 1;
          curr_proc = a.idle_proc;
          frame_at = update k₁.frame_at a.idle_proc (some (idle_pcb a k).uc);
        }

    loads :
        (log : List Event) × (load_program a.proc_pagetable a.argbuf a.file
            (name ∷ args)
            a.init_proc
            made
          ≡ ok success (with_program log))
    loads =
        let (_, at_init, frames_left, _, _) = made_lem in
        subst
          (λ f.
            (log : List Event) × (load_program a.proc_pagetable a.argbuf f (name ∷ args) a.init_proc
                made
              ≡ ok success (with_program log)))
          (sym file)
          (load_program_state li t d (name ∷ args) ft fd fs rest a.init_proc (init_pcb a) l
            a.proc_pagetable a.argbuf made room entry at_init (frames_left ∙ free))

    idle_there : (with_program loads.0).procs a.idle_proc ≡ some (idle_pcb a k)
    idle_there = ground (arith, made_lem.0, other)

    launches : kernel_start a k ≡ ok tt (launched loads.0)
    launches =
        boots_on
        ∙ starts a name args (idle_pcb a k)
            (started li t d (name ∷ args) ft fd fs rest a.init_proc (init_pcb a) l) made
            (with_program loads.0) line loads.1 idle_there (ground arith)

    launched-Ring : Ring (launched loads.0) idle_job (init_job ∷ [])
    launched-Ring = record {
      curr = refl;
      not_null = not_null;
      running = (idle_pcb a k, idle_there, refl);
      frame = ground arith;
      ready = ap (λ ns. add_to_list ns a.init_proc 1) made_lem.3;
      blocked = made_lem.4;
      away = (other, tt);
      distinct = (tt, tt);
      waits = (init_not_null, ground arith, ground arith, tt);
    }

    -- With an executable on the command line that can be read and that begins in Region 1, an
    -- empty page table that is laid out for it, a buffer for the arguments, at least 132 pages of
    -- memory with the frames from 132 on for text, data, stack and more, no frame listed before,
    -- and two control blocks at addresses of their own, `KernelStart` ends with the idle process
    -- running, and the first clock tick runs the program at its entry point, with the stack
    -- pointer below its arguments, and leaves idle ready. The machine reaches that state.
    pub boot-tick :
        (retval : ℕ) (u : UserContext)
        → (k₁ k₂ : Kernel) × (uc : UserContext) × (kernel_start a k ≡ ok tt k₁)
          × (k₁.curr_proc ≡ a.idle_proc)
          × (tick retval u k₁ ≡ ok tt k₂)
          × (k₂.curr_proc ≡ a.init_proc)
          × (k₂.frame_at a.init_proc ≡ some uc)
          × (uc.pc ≡ li.entry)
          × (uc.sp ≡ stack_pointer (name ∷ args))
          × (k₂.ready_procs ≡ node 0 a.idle_proc ∷ [])
          × ((i : ℕ) × Reach (user_mode k₁) i (user_mode k₂))
    boot-tick retval u =
        let (k₂, run, r, steps) =
          tick-rotate retval u (launched loads.0) idle_job (init_job ∷ []) launched-Ring in
        (
          launched loads.0,
          k₂,
          program_uc,
          launches,
          refl,
          run,
          r.curr,
          r.frame,
          refl,
          refl,
          r.ready,
          steps,
        )
