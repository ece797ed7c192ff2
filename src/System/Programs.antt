-- ===== src/System/Programs.antt =====
-- Loading a program and an exec leave the tables of resources alone.
use yalnix_operating_system.Base.{
  ℕ, zero, suc, ◌+◌, Bool, true, false, Option, some, List, [], ◌∷◌, arith, null, error, ltb, ◌==◌,
  ◌≡◌, refl, if◌then◌else◌, add_word, ◌&&◌, not, greater, length, update,
}
use yalnix_operating_system.Kernel.State.{Kernel, Pte, Pcb}
use yalnix_operating_system.Kernel.Run.{
  M, ok, and_then-eq-ok, store_proc, crash, ◌>>◌, pure, load_proc,
}
use yalnix_operating_system.System.Tables.{
  SameTables, SameTables-trans, Keeps, pure-Keeps, load_proc-Keeps, if-Keeps,
}
use yalnix_operating_system.Memory.Pointers.{vmem_1_base, region_pages}
use yalnix_operating_system.Memory.Brk.{shift_page}
use yalnix_operating_system.Program.Load.{
  stack_npg, data_pg1, data_npg, args_size, stack_pointer, LoadInfo, Executable, no_file,
  not_yalnix, program, map_pages, map_image, store_stack, store_args, fill_image, load_image,
  load_program,
}
use yalnix_operating_system.Program.Exec.{ExecArgs, exec}

module _ (at : ℕ) where
  pub map_pages-Keeps : (n i : ℕ) (table : List Pte) → Keeps at (map_pages n i table)
  unfolding map_pages
  map_pages-Keeps zero i table k a k' h = ground arith
  map_pages-Keeps (suc n) i table k a k' h = grind (arith, map_pages-Keeps n)

  pub store_args-Keeps :
      (proc cpp cp : ℕ) (args : List (List ℕ)) → Keeps at (store_args proc cpp cp args)
  unfolding store_args
  store_args-Keeps proc cpp cp [] k a k' h = ground arith
  store_args-Keeps proc cpp cp (x ∷ xs) k a k' h =
      grind (arith, store_args-Keeps proc (add_word cpp 4) (add_word cp (length x + 1)) xs)

  pub store_stack-Keeps :
      (proc : ℕ) (li : LoadInfo) (args : List (List ℕ)) → Keeps at (store_stack proc li args)
  unfolding store_stack
  store_stack-Keeps proc li args k a k' h = grind (arith, store_args-Keeps)

  pub map_image-Keeps :
      (li : LoadInfo) (args : List (List ℕ)) (table : List Pte) → Keeps at (map_image li args table)
  unfolding map_image
  map_image-Keeps li args table k a k' h = grind (arith, map_pages-Keeps)

  pub fill_image-Keeps :
      (old : ℕ) (li : LoadInfo) (text bytes : Option (List ℕ)) (args : List (List ℕ)) (proc : ℕ)
      → Keeps at (fill_image old li text bytes args proc)
  unfolding fill_image
  fill_image-Keeps old li text bytes args proc k a k' h =
      grind (arith, map_image-Keeps, store_stack-Keeps)

  load_checked-Keeps :
      (p q : Bool) (proc : ℕ) (c d d' : Pcb) (m : M ℕ) (k : Kernel) (a : ℕ) (k' : Kernel)
      → Keeps at m
      → k.procs proc ≡ some c
      → d.proc_id ≡ c.proc_id
      → d'.proc_id ≡ c.proc_id
      → (if p
            then (do store_proc proc d; if q then crash else pure tt; m)
            else (do store_proc proc d'; pure error))
          k
        ≡ ok a k'
      → SameTables at k k'
  load_checked-Keeps true true proc c d d' m k a k' h here e f run = cc
  load_checked-Keeps true false proc c d d' m k a k' h here e f run =
      let k₁ : Kernel = record k { procs = update k.procs proc (some d) } in
      SameTables-trans at (ground arith) (h k₁ a k' run)
  load_checked-Keeps false q proc c d d' m k a k' h here e f run = ground arith

  pub load_image-Keeps :
      (argbuf old : ℕ) (file : Executable) (args : List (List ℕ)) (proc : ℕ)
      → Keeps at (load_image argbuf old file args proc)
  unfolding load_image
  load_image-Keeps argbuf old no_file args proc k a k' h = ground arith
  load_image-Keeps argbuf old not_yalnix args proc k a k' h = ground arith
  load_image-Keeps argbuf old (program li text bytes) args proc k₀ a₀ k₀' h₀ =
      if-Keeps at (ltb li.entry vmem_1_base) (pure error) _ (pure-Keeps at error)
        (λ k a k' h.
          let (c, k₁, e, run) = and_then-eq-ok (load_proc proc k) _ h in
          let brk : ℕ = shift_page (add_word (add_word (data_pg1 li) li.t_npg) (data_npg li)) in
          let u = c.uc in
          SameTables-trans at (load_proc-Keeps at proc k c k₁ e) (
            load_checked-Keeps
              (greater region_pages
                (add_word (add_word (stack_npg args) (data_pg1 li)) (data_npg li)))
              (argbuf == null && not (args_size args == 0)) proc c
              (record c { brk_addr = brk; uc = record u { sp = stack_pointer args } })
              (record c { brk_addr = brk }) (fill_image old li text bytes args proc) k₁ a k'
              (fill_image-Keeps old li text bytes args proc) (ground arith) refl refl run))
        k₀ a₀ k₀' h₀

  pub load_program-Keeps :
      (pagetable argbuf : ℕ) (file : Executable) (args : List (List ℕ)) (proc : ℕ)
      → Keeps at (load_program pagetable argbuf file args proc)
  unfolding load_program
  load_program-Keeps pagetable argbuf file args proc k a k' h = grind (arith, load_image-Keeps)

  pub exec-Keeps : (x : ExecArgs) → Keeps at (exec x)
  unfolding exec
  exec-Keeps x k a k' h = grind (arith, load_program-Keeps)
