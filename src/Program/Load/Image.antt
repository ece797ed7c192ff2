-- ===== src/Program/Load/Image.antt =====
-- `LoadProgram` of src/load_program.c as a whole, for a program that can be loaded.
use yalnix_operating_system.Base.{
  ℕ, ◌+◌, ◌≤◌, ◌≡◌, ◌≢◌, refl, some, List, [], ◌∷◌, ◌++◌, length, arith, null, success, update,
  add_word, ltb, greater, true, false, ◌-◌, ◌==◌,
}
use yalnix_operating_system.LinkedList.{NodeList}
use yalnix_operating_system.Kernel.State.{Kernel, Pcb, Event, bytes_stored}
use yalnix_operating_system.Kernel.Run.{ok}
use yalnix_operating_system.Memory.Pointers.{region_pages, vmem_1_base}
use yalnix_operating_system.Program.Load.{
  LoadInfo, program, stack_npg, stack_pointer, args_start, argv_start, text_pg1, data_pg1, data_npg,
  store_args, store_stack, shift_page, fill_image, load_image, load_program,
}
use yalnix_operating_system.Program.Load.Pages.{text_page}
use yalnix_operating_system.Program.Load.Layout.{
  Layout, with_sections, map_image_lem, protected_lem,
}

store_args_lem :
    (proc cpp cp : ℕ) (args : List (List ℕ)) (k : Kernel)
    → (log : List Event) × (store_args proc cpp cp args k ≡ ok tt (record k { log = log }))
unfolding store_args
store_args_lem proc cpp cp [] k = (_, refl)
store_args_lem proc cpp cp (x ∷ xs) k =
    store_args_lem proc (add_word cpp 4) (add_word cp (length x + 1)) xs _

store_stack_lem :
    (proc : ℕ) (li : LoadInfo) (args : List (List ℕ)) (k : Kernel)
    → (log : List Event) × (store_stack proc li args k ≡ ok tt (record k { log = log }))
unfolding store_stack
store_stack_lem proc li args k =
    store_args_lem proc (add_word (argv_start args) 4) (args_start args) args _

module _ (li : LoadInfo) (t d : List ℕ) (args : List (List ℕ)) (ft fd fs rest : NodeList) (proc : ℕ)
    (c : Pcb) (l : Layout li args c.region1_pt ft fd fs) where
  -- The process with the new program in it.
  abbrev pub loaded : Pcb
  loaded =
      let u = c.uc in
      record c {
        region1_pt = with_sections li args c.region1_pt ft fd fs rest l text_page;
        uc = record u { pc = li.entry };
        heap_base_page = text_pg1 li + length ft;
      }

  fill_image_lem :
      (old : ℕ) (k : Kernel)
      → k.procs proc ≡ some c
      → k.frame_list ≡ ft ++ (fd ++ (fs ++ rest))
      → (log : List Event) × (fill_image old li (some t) (some d) args proc k
          ≡ ok success (record k {
            frame_list = rest;
            procs = update k.procs proc (some loaded);
            log = log;
            ptbr1 = old;
          }))
  unfolding fill_image
  fill_image_lem old k running frames =
      let k₁ : Kernel = record k {
        frame_list = rest;
        log = bytes_stored proc li.id_vaddr d ∷ bytes_stored proc li.t_vaddr t ∷ k.log;
      } in
      let (log, stored) = store_stack_lem proc li args k₁ in
      let base : add_word (text_pg1 li) li.t_npg ≡ text_pg1 li + length ft =
        omega (arith, l.text_at, l.text_size, l.text_frames, l.whole) in
      (
        log,
        rw running (
            rw (map_image_lem li args c.region1_pt ft fd fs rest l k frames)
              (rw stored (rw (protected_lem li args c.region1_pt ft fd fs rest l) (rw base refl)))),
      )

  pages_fit :
      greater region_pages (add_word (add_word (stack_npg args) (data_pg1 li)) (data_npg li)) ≡ true
  pages_fit =
      let total : add_word (add_word (stack_npg args) (data_pg1 li)) (data_npg li)
          ≡ region_pages - length l.gap =
        omega (arith, l.data_at, l.data_size, l.stack_size, l.whole) in
      rw total (ground (arith, l.guard, l.whole))

-- `c` once the loader has set its break and its stack pointer.
abbrev pub begun : LoadInfo → List (List ℕ) → Pcb → Pcb
begun li args c =
    let u = c.uc in
    record c {
      brk_addr = shift_page (add_word (add_word (data_pg1 li) li.t_npg) (data_npg li));
      uc = record u { sp = stack_pointer args };
    }

module _ (li : LoadInfo) (t d : List ℕ) (args : List (List ℕ)) (ft fd fs rest : NodeList) (proc : ℕ)
    (c : Pcb) (l : Layout li args c.region1_pt ft fd fs) where
  -- The process and the kernel behind the load.
  abbrev pub started : Pcb
  started = loaded li t d args ft fd fs rest proc (begun li args c) l

  abbrev pub image_at : (old : ℕ) → Kernel → List Event → Kernel
  image_at old k log = record k {
    frame_list = rest;
    procs = update (update k.procs proc (some (begun li args c))) proc (some started);
    log = log;
    ptbr1 = old;
  }

  load_image_lem :
      (argbuf old : ℕ) (k : Kernel)
      → argbuf ≢ null
      → vmem_1_base ≤ li.entry
      → k.procs proc ≡ some c
      → k.frame_list ≡ ft ++ (fd ++ (fs ++ rest))
      → (log : List Event) × (load_image argbuf old (program li (some t) (some d)) args proc k
          ≡ ok success (image_at old k log))
  unfolding load_image
  load_image_lem argbuf old k room entry running frames =
      let c₁ : Pcb = begun li args c in
      let k₁ : Kernel = record k { procs = update k.procs proc (some c₁) } in
      let (log, done) =
        fill_image_lem li t d args ft fd fs rest proc c₁ l old k₁ (ground arith) frames in
      let inside : ltb li.entry vmem_1_base ≡ false = ground arith in
      let given : (argbuf == null) ≡ false = ground arith in
      (
        log,
        rw inside (
            rw running
              (rw (pages_fit li t d args ft fd fs rest proc c l) (rw given (rw done refl)))),
      )

  pub load_program_state :
      (pagetable argbuf : ℕ) (k : Kernel)
      → argbuf ≢ null
      → vmem_1_base ≤ li.entry
      → k.procs proc ≡ some c
      → k.frame_list ≡ ft ++ (fd ++ (fs ++ rest))
      → (log : List Event) × (load_program pagetable argbuf
            (program li (some t) (some d))
            args
            proc
            k
          ≡ ok success (image_at k.ptbr1 k log))
  unfolding load_program
  load_program_state pagetable argbuf k room entry running frames =
      let (log, run) =
        load_image_lem argbuf k.ptbr1 (record k { ptbr1 = pagetable }) room entry running frames in
      (log, rw running run)

  -- For an executable that can be read and that begins in Region 1, a page table that is laid out
  -- for it, with a page between data and stack, free frames for its text, its data and the stack,
  -- and a buffer for the arguments, `LoadProgram` succeeds. The new page table has the first
  -- frames, read-only and executable, for the text, the next ones for the data and the last ones
  -- for the stack, and is otherwise as it was; the frames behind those are left; the program
  -- counter and the stack pointer are set, and the page table register is restored.
  pub load_program_lem :
      (pagetable argbuf : ℕ) (k : Kernel)
      → argbuf ≢ null
      → vmem_1_base ≤ li.entry
      → k.procs proc ≡ some c
      → k.frame_list ≡ ft ++ (fd ++ (fs ++ rest))
      → (k' : Kernel) × (p : Pcb) × (load_program pagetable argbuf
            (program li (some t) (some d))
            args
            proc
            k
          ≡ ok success k')
        × (k'.procs proc ≡ some p)
        × (p.region1_pt ≡ with_sections li args c.region1_pt ft fd fs rest l text_page)
        × (p.uc.pc ≡ li.entry)
        × (p.uc.sp ≡ stack_pointer args)
        × (k'.frame_list ≡ rest)
        × (k'.ptbr1 ≡ k.ptbr1)
  load_program_lem pagetable argbuf k room entry running frames =
      let (log, run) = load_program_state pagetable argbuf k room entry running frames in
      (image_at k.ptbr1 k log, started, run, ground arith, refl, refl, refl, refl, refl)
