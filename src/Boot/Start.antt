-- ===== src/Boot/Start.antt =====
-- The kernel that `KernelStart` leaves when no program is named.
use mathlib.Core.List.{append_assoc, append-nil}
use yalnix_operating_system.Base.{
  ℕ, zero, suc, ◌+◌, ◌-◌, ◌/◌, ◌<◌, ◌≡◌, ◌≢◌, refl, sym, ap, ◌∙◌, false, true, some, none, List, [],
  ◌∷◌, ◌++◌, arith, null, ◌==◌, replicate, drop, get_elem?,
}
use yalnix_operating_system.LinkedList.{node, NodeList, add_to_list}
use yalnix_operating_system.LinkedList.Laws.{add_to_list-append}
use yalnix_operating_system.Kernel.State.{Kernel, Pte, Pcb, UserContext, zero_block, no_text}
use yalnix_operating_system.Kernel.Run.{Run, ok, fault, exits, hangs}
use yalnix_operating_system.Kernel.Switch.{kernel_stack_page}
use yalnix_operating_system.Memory.Pointers.{page_size, region_pages, vmem_1_limit}
use yalnix_operating_system.Memory.Brk.{page_shift, up_to_page}
use yalnix_operating_system.Process.Fork.{new_process}
use yalnix_operating_system.Boot.{
  BootArgs, make_ttys, list_frames, kernel_entry, kernel_entries, no_page, rw_page, take_frame,
  init_queues, init_tables, make_idle, make_init, start_init, run_idle, kernel_start,
}

-- `n` free frames, from number `i` on.
abbrev pub free_from : (n i : ℕ) → NodeList
free_from zero i = []
free_from (suc n) i = node i null ∷ free_from n (i + 1)

pub list_frames_lem :
    (n i : ℕ) (frames : NodeList) → list_frames n i frames ≡ frames ++ free_from n i
unfolding list_frames
list_frames_lem zero i frames = sym (append-nil frames)
list_frames_lem (suc n) i frames =
    list_frames_lem n (i + 1) (add_to_list frames null i)
    ∙ ap (λ l. l ++ free_from n (i + 1)) (add_to_list-append frames null i)
    ∙ append_assoc frames (node i null ∷ []) (free_from n (i + 1))

-- Entry `i` of the page table of Region 0 after `j` others.
kernel_entries_lem :
    (in_use data_page n i j : ℕ)
    → j < n
    → get_elem? (kernel_entries in_use data_page n i) j
      ≡ some (kernel_entry in_use data_page (i + j))
unfolding kernel_entries
kernel_entries_lem in_use data_page zero i j lt = elim lt [ ]
kernel_entries_lem in_use data_page (suc n) i zero lt =
    ap (λ p. some (kernel_entry in_use data_page p)) (omega arith)
kernel_entries_lem in_use data_page (suc n) i (suc j) lt =
    kernel_entries_lem in_use data_page n (i + 1) j (omega arith)
    ∙ ap (λ p. some (kernel_entry in_use data_page p)) (omega arith)

-- The state of a command that has ended.
abbrev pub after : {A : Type 0} → Run A → Kernel → Kernel
after (ok a k) d = k
after fault d = d
after (exits c) d = d
after hangs d = d

-- The page table of Region 0, and the two processes.
abbrev pub region0 : BootArgs → Kernel → List Pte
region0 a k =
    kernel_entries (page_shift (up_to_page a.kernel_data_end)) (k.kernel_data_start / page_size)
      region_pages 0

region0_lem :
    (a : BootArgs) (k : Kernel) (i : ℕ)
    → i < region_pages
    → get_elem? (region0 a k) i
      ≡ some (
          kernel_entry
            (page_shift (up_to_page a.kernel_data_end))
            (k.kernel_data_start / page_size)
            i)
region0_lem a k i lt =
    let in_use : ℕ = page_shift (up_to_page a.kernel_data_end) in
    let data_page : ℕ = k.kernel_data_start / page_size in
    kernel_entries_lem in_use data_page region_pages 0 i lt
    ∙ ap (λ p. some (kernel_entry in_use data_page p)) (omega arith)

abbrev pub empty_process : Pcb → UserContext → Pcb
empty_process junk uc =
    let u = junk.uc in
    record junk {
      uc = record u { vector = uc.vector; code = uc.code };
      block = zero_block;
      exited_children = none;
      heap_base_page = 0;
      brk_addr = 0;
      write_buf = record { buf = no_text; len = 0 };
    }

abbrev pub idle_pcb : BootArgs → Kernel → Pcb
idle_pcb a k =
    let p = empty_process a.idle_junk a.uctxt in
    let u = p.uc in
    record p {
      proc_id = 0;
      uc = record u { pc = a.do_idle; sp = vmem_1_limit - page_size };
      children = some (node 1 a.init_proc ∷ []);
      parent = null;
      kc_set = 1;
      region0_pt = drop kernel_stack_page (region0 a k);
      region1_pt = replicate 126 no_page ++ (rw_page 129 ∷ rw_page 128 ∷ []);
    }

abbrev pub init_pcb : BootArgs → Pcb
init_pcb a = record (empty_process a.init_junk a.uctxt) {
  proc_id = 1;
  children = none;
  parent = a.idle_proc;
  kc_set = 0;
  region0_pt = rw_page 130 ∷ rw_page 131 ∷ [];
  region1_pt = replicate region_pages no_page;
}

module _ (a : BootArgs) (n : ℕ) (k : Kernel) (memory : a.pmem_size / page_size ≡ 132 + n)
    (alone : a.cmd_args ≡ []) (fresh : k.frame_list ≡ []) (not_null : a.idle_proc ≢ null)
    (init_not_null : a.init_proc ≢ null) (other : a.idle_proc ≢ a.init_proc) where
  frames :
      list_frames (a.pmem_size / page_size - region_pages) region_pages k.frame_list
      ≡ node 128 null ∷ node 129 null ∷ node 130 null ∷ node 131 null ∷ free_from n 132
  frames =
      let e : a.pmem_size / page_size - region_pages ≡ suc (suc (suc (suc n))) = omega arith in
      rw e (rw fresh (list_frames_lem (suc (suc (suc (suc n)))) 128 []))

  -- With no program on the command line, an empty `FrameList` before the boot, at least 132 pages
  -- of memory and two control blocks at addresses of their own, `KernelStart` ends with virtual
  -- memory on and the idle process running: it has identifier 0, the frames 129 and 128 as its
  -- stack and the kernel stack of the boot; its child has identifier 1, an empty Region 1 and the
  -- frames 130 and 131 as its kernel stack. Page i of Region 0 has its entry, the frames from 132
  -- on are free, no process is ready, and idle stands twice in the list of all processes.
  pub kernel_start_lem :
      (i : ℕ)
      → i < region_pages
      → (k' : Kernel) × (idle init : Pcb) × (kernel_start a k ≡ ok tt k')
        × (k'.curr_proc ≡ a.idle_proc)
        × (k'.vm_en ≡ 1)
        × (k'.procs a.idle_proc ≡ some idle)
        × (k'.procs a.init_proc ≡ some init)
        × (idle.proc_id ≡ 0)
        × (init.proc_id ≡ 1)
        × (idle.children ≡ some (node 1 a.init_proc ∷ []))
        × (init.parent ≡ a.idle_proc)
        × (idle.region1_pt ≡ replicate 126 no_page ++ (rw_page 129 ∷ rw_page 128 ∷ []))
        × (idle.region0_pt ≡ drop kernel_stack_page k'.r0_pagetable)
        × (init.region1_pt ≡ replicate 128 no_page)
        × (init.region0_pt ≡ rw_page 130 ∷ rw_page 131 ∷ [])
        × (get_elem? k'.r0_pagetable i
            ≡ some (
                kernel_entry
                  (page_shift (up_to_page a.kernel_data_end))
                  (k.kernel_data_start / page_size)
                  i))
        × (k'.frame_list ≡ free_from n 132)
        × (k'.all_procs ≡ node 0 a.idle_proc ∷ node 0 a.idle_proc ∷ [])
        × (k'.ready_procs ≡ [])
  unfolding kernel_start init_queues make_ttys take_frame init_tables make_idle make_init start_init
      run_idle new_process
  kernel_start_lem i lt =
      let e : (a.idle_proc == null) ≡ false = ground arith in
      let f : (a.init_proc == null) ≡ false = ground arith in
      let g : (a.idle_proc == a.init_proc) ≡ false = ground arith in
      let h : (a.init_proc == a.idle_proc) ≡ false = ground arith in
      let b : (a.idle_proc == a.idle_proc) ≡ true = ground arith in
      let c : (a.init_proc == a.init_proc) ≡ true = ground arith in
      let k₁ : Kernel = after (kernel_start a k) k in
      (
        k₁,
        idle_pcb a k,
        init_pcb a,
        simp (frames, alone, e, f, g, h, b, c),
        simp (frames, alone, e, f, g, h, b, c),
        simp (frames, alone, e, f, g, h, b, c),
        simp (frames, alone, e, f, g, h, b, c) refl,
        simp (frames, alone, e, f, g, h, b, c) refl,
        refl,
        refl,
        refl,
        refl,
        refl,
        simp (frames, alone, e, f, g, h, b, c) refl,
        refl,
        refl,
        simp (frames, alone, e, f, g, h, b, c) (region0_lem a k i lt),
        simp (frames, alone, e, f, g, h, b, c) refl,
        simp (frames, alone, e, f, g, h, b, c) refl,
        simp (frames, alone, e, f, g, h, b, c) refl,
      )
