-- ===== src/Program/Load.antt =====
-- `LoadProgram` of src/load_program.c. The executable file, and what `open`, `LoadInfo` and `read`
-- make of it, is an argument. What is stored in the new process's memory is logged.
pub mod Pages
pub mod Layout
pub mod Image
pub mod Args
use yalnix_operating_system.Base.{
  ℕ, zero, suc, ◌+◌, ◌-◌, ◌*◌, ◌/◌, ◌%◌, ◌^◌, Bool, true, false, not, ◌&&◌, Option, none, some,
  List, [], ◌∷◌, ◌++◌, if◌then◌else◌, ◌==◌, ltb, length, get_elem?, set, replicate, null, error,
  success, is_negative, greater, add_word, sub_word, word_mod,
}
use yalnix_operating_system.LinkedList.{pop}
use yalnix_operating_system.Kernel.State.{Kernel, Pte, Pcb, Event, int_stored, bytes_stored}
use yalnix_operating_system.Kernel.Run.{
  M, ◌>>=◌, ◌>>◌, pure, get, put, crash, from, emit, load_proc, store_proc,
}
use yalnix_operating_system.Memory.Frames.{fnum_to_pfn}
use yalnix_operating_system.Memory.Pointers.{
  page_size, vmem_1_base, vmem_1_limit, region_pages, prot_read, prot_write,
}
use yalnix_operating_system.Memory.Brk.{down_to_page, page_shift, shift_page}

abbrev pub prot_exec : ℕ
prot_exec = 4

-- `KILL` of kernel.h, which is -1 like `ERROR`.
abbrev pub kill : ℕ
kill = error

-- `struct load_info`, but for the places in the file.
pub record LoadInfo : Type 0 where
  pub entry : ℕ
  pub t_vaddr : ℕ
  pub t_npg : ℕ
  pub id_vaddr : ℕ
  pub id_npg : ℕ
  pub id_end : ℕ
  pub ud_npg : ℕ
  pub ud_end : ℕ

-- What `name` stands for: no file, no executable, or one with the bytes of its text and its
-- data, where they can be read.
pub data Executable : Type 0 where
  no_file not_yalnix : Executable
  program : LoadInfo → (text bytes : Option (List ℕ)) → Executable

-- Bytes that the arguments take, each with its NUL.
abbrev pub args_size : List (List ℕ) → ℕ
args_size [] = 0
args_size (a ∷ as') = length a + 1 + args_size as'

abbrev pub post_argv_null_space : ℕ
post_argv_null_space = 32

abbrev pub initial_stack_frame_size : ℕ
initial_stack_frame_size = 0

-- `cp`, where the arguments go; `cpp`, where the pointers to them go; `cp2`, the stack pointer.
abbrev pub args_start : List (List ℕ) → ℕ
args_start args = sub_word vmem_1_limit (args_size args)

abbrev pub argv_start : List (List ℕ) → ℕ
argv_start args =
    let top = sub_word (args_start args) ((length args + 3 + post_argv_null_space) * 4) in
    top - top % 8

abbrev pub stack_pointer : List (List ℕ) → ℕ
stack_pointer args = sub_word (argv_start args) initial_stack_frame_size

abbrev pub stack_npg : List (List ℕ) → ℕ
stack_npg args = page_shift (sub_word vmem_1_limit (down_to_page (stack_pointer args)))

-- The sections in pages of Region 1.
abbrev pub text_pg1 : LoadInfo → ℕ
text_pg1 li = sub_word li.t_vaddr vmem_1_base / page_size

abbrev pub data_pg1 : LoadInfo → ℕ
data_pg1 li = sub_word li.id_vaddr vmem_1_base / page_size

abbrev pub data_npg : LoadInfo → ℕ
data_npg li = add_word li.id_npg li.ud_npg

-- Rounds of `for (i = from; i < to; i++)`, `to` an unsigned int and an int.
abbrev pub rounds_below : ℕ → ℕ → ℕ
rounds_below from to = to - from

abbrev pub rounds_below_int : ℕ → ℕ → ℕ
rounds_below_int from to = if is_negative to then 0 else to - from

abbrev pub text_rounds : LoadInfo → ℕ
text_rounds li = rounds_below (text_pg1 li) (add_word (text_pg1 li) li.t_npg)

abbrev pub writable_page : ℕ → Pte
writable_page f = record { valid = 1; prot = prot_read + prot_write; pfn = fnum_to_pfn f }

-- One of the three loops that map pages, with `n` rounds left at page `i`: `pop` on an empty list gives
-- NULL, and a page that the table does not have is outside the local array.
unfoldable pub map_pages : (n i : ℕ) → List Pte → M (List Pte)
map_pages zero i table = pure table
map_pages (suc n) i table = do
  k ← get
  let (popped, others) = pop k.frame_list
  node ← from popped
  put (record k { frame_list = others })
  old ← from (get_elem? table i)
  map_pages n (i + 1) (set table i (writable_page node.id))

-- The loop that makes the text executable and no longer writable.
unfoldable pub protect_pages : (n i : ℕ) → List Pte → List Pte
protect_pages zero i table = table
protect_pages (suc n) i table = elim (get_elem? table i) [
  | none ↦ table
  | some e ↦ protect_pages n (i + 1) (set table i (record e { prot = prot_read + prot_exec }))
]

-- The argument list on the new stack: pointers from `cpp` on, texts from `cp` on.
unfoldable pub store_args : (proc cpp cp : ℕ) → List (List ℕ) → M (Unit {0})
store_args proc cpp cp [] = do
  emit (int_stored proc cpp 0)
  emit (int_stored proc (add_word cpp 4) 0)
store_args proc cpp cp (a ∷ as') = do
  emit (int_stored proc cpp cp)
  emit (bytes_stored proc cp (a ++ 0 ∷ []))
  store_args proc (add_word cpp 4) (add_word cp (length a + 1)) as'

-- The data that is zero at first, the stack, and on it the arguments.
unfoldable pub store_stack : (proc : ℕ) → LoadInfo → (args : List (List ℕ)) → M (Unit {0})
store_stack proc li args = do
  emit (bytes_stored proc li.id_end (replicate (sub_word li.ud_end li.id_end) 0))
  emit (bytes_stored proc (argv_start args) (replicate (sub_word vmem_1_limit (argv_start args)) 0))
  emit (int_stored proc (argv_start args) (length args))
  store_args proc (add_word (argv_start args) 4) (args_start args) args

-- The three loops: the text, the data and the stack.
unfoldable pub map_image : LoadInfo → (args : List (List ℕ)) → List Pte → M (List Pte)
map_image li args table = do
  with_text ← map_pages (text_rounds li) (text_pg1 li) table
  with_data ←
      map_pages (rounds_below_int (data_pg1 li) (add_word (data_pg1 li) (data_npg li)))
        (data_pg1 li) with_text
  map_pages (if is_negative (stack_npg args) then 0 else stack_npg args)
      (sub_word region_pages (stack_npg args)) with_data

-- The part of `LoadProgram` that is committed to the new program; `old` is the page table register.
unfoldable pub fill_image :
    (old : ℕ)
    → LoadInfo
    → (text bytes : Option (List ℕ)) → (args : List (List ℕ)) → (proc : ℕ) → M ℕ
fill_image old li text bytes args proc = do
  c ← load_proc proc
  table ← map_image li args c.region1_pt
  elim text [
    | none ↦ pure kill
    | some t ↦ do
      emit (bytes_stored proc li.t_vaddr t)
      elim bytes [
        | none ↦ pure kill
        | some d ↦ do
          emit (bytes_stored proc li.id_vaddr d)
          store_stack proc li args
          let u = c.uc
          store_proc proc (record c {
            region1_pt = protect_pages (text_rounds li) (text_pg1 li) table;
            uc = record u { pc = li.entry };
            heap_base_page = add_word (text_pg1 li) li.t_npg;
          })
          k ← get
          put (record k { ptbr1 = old })
          pure success
      ]
  ]

unfoldable pub load_image : (argbuf old : ℕ) → Executable → List (List ℕ) → (proc : ℕ) → M ℕ
load_image argbuf old no_file args proc = pure error
load_image argbuf old not_yalnix args proc = pure error
load_image argbuf old (program li text bytes) args proc =
    if ltb li.entry vmem_1_base then pure error else do
      c ← load_proc proc
      let brk = shift_page (add_word (add_word (data_pg1 li) li.t_npg) (data_npg li))
      let u = c.uc
      let total = add_word (add_word (stack_npg args) (data_pg1 li)) (data_npg li)
      if greater region_pages total
          then (do
            store_proc proc (record c { brk_addr = brk; uc = record u { sp = stack_pointer args } })
            if argbuf == null && not (args_size args == 0) then crash else pure tt
            fill_image old li text bytes args proc)
          else (do store_proc proc (record c { brk_addr = brk }); pure error)

-- `pagetable` is the address of the local array, `argbuf` what `malloc` returns. The page table register
-- holds `pagetable` while the program is loaded; an error leaves it so.
unfoldable pub load_program : (pagetable argbuf : ℕ) → Executable → List (List ℕ) → (proc : ℕ) → M ℕ
load_program pagetable argbuf file args proc = do
  k ← get
  c ← load_proc proc
  put (record k { ptbr1 = pagetable })
  load_image argbuf k.ptbr1 file args proc
