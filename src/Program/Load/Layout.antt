-- ===== src/Program/Load/Layout.antt =====
-- The page table of a new program, section by section, and the loops of `LoadProgram` that map it.
use mathlib.Core.List.{append_assoc, append-nil}
use yalnix_operating_system.Base.{
  ℕ, suc, ◌+◌, ◌<◌, ◌^◌, ◌≡◌, refl, ap, ◌∙◌, List, [], ◌∷◌, ◌++◌, length, length-append, arith,
  add_word, sub_word, is_negative, if◌then◌else◌,
}
use yalnix_operating_system.LinkedList.{NodeList}
use yalnix_operating_system.Kernel.State.{Kernel, Pte}
use yalnix_operating_system.Kernel.Run.{ok}
use yalnix_operating_system.Memory.Pointers.{region_pages}
use yalnix_operating_system.Program.Load.{
  LoadInfo, stack_npg, text_pg1, data_pg1, data_npg, text_rounds, rounds_below, rounds_below_int,
  writable_page, map_pages, map_image, protect_pages,
}
use yalnix_operating_system.Program.Load.Pages.{pages, text_page, map_pages_lem, protect_pages_lem}

-- The parts of the page table: the text, the data and the stack, with what stands before and between them;
-- and the frames for the three. The guard page between the data and the stack is in `gap`.
pub record Layout (li : LoadInfo) (args : List (List ℕ)) (table : List Pte) (ft fd fs : NodeList)
    : Type 0 where
  pub before : List Pte
  pub text : List Pte
  pub between : List Pte
  pub data_pages : List Pte
  pub gap : List Pte
  pub stack : List Pte
  pub parts : table ≡ before ++ (text ++ (between ++ (data_pages ++ (gap ++ stack))))
  pub whole :
      length before + length text + length between + length data_pages + length gap + length stack
      ≡ region_pages
  pub guard : 0 < length gap
  pub text_at : text_pg1 li ≡ length before
  pub text_size : li.t_npg ≡ length text
  pub data_at : data_pg1 li ≡ length before + length text + length between
  pub data_size : data_npg li ≡ length data_pages
  pub stack_size : stack_npg args ≡ length stack
  pub text_frames : length text ≡ length ft
  pub data_frames : length data_pages ≡ length fd
  pub stack_frames : length stack ≡ length fs

map_pages_at :
    (fs rest : NodeList) (a x r : List Pte) (k : Kernel) (n i : ℕ) (t : List Pte)
    → length x ≡ length fs
    → k.frame_list ≡ fs ++ rest
    → n ≡ length fs
    → i ≡ length a
    → t ≡ a ++ (x ++ r)
    → map_pages n i t k ≡ ok (a ++ (pages writable_page fs ++ r)) (record k { frame_list = rest })
map_pages_at fs rest a x r k n i t same frames e f g =
    rw e (rw f (rw g (map_pages_lem fs rest a x r k same frames)))

rounds_below-add : (i n m : ℕ) → n ≡ m → i + m < 2 ^ 31 → rounds_below i (add_word i n) ≡ m
rounds_below-add i n m e lt = omega arith

rounds_below_int-add : (i n m : ℕ) → n ≡ m → i + m < 2 ^ 31 → rounds_below_int i (add_word i n) ≡ m
rounds_below_int-add i n m e lt = ground arith

stack_rounds : (n m : ℕ) → n ≡ m → m < 2 ^ 31 → (if is_negative n then 0 else n) ≡ m
stack_rounds n m e lt = ground arith

sub_rest : (n m : ℕ) → n + m ≡ region_pages → sub_word region_pages n ≡ m
sub_rest n m e = omega arith

length-pages : (page : ℕ → Pte) (ns : NodeList) → length (pages page ns) ≡ length ns
length-pages page [] = refl
length-pages page (n ∷ ns) = ap suc (length-pages page ns)

module _ (li : LoadInfo) (args : List (List ℕ)) (table : List Pte) (ft fd fs rest : NodeList)
    (l : Layout li args table ft fd fs) where
  text_rounds_lem : text_rounds li ≡ length ft
  text_rounds_lem =
      rounds_below-add (text_pg1 li) li.t_npg (length ft) (l.text_size ∙ l.text_frames)
        (omega (arith, l.text_at, l.text_frames, l.whole))

  data_rounds_lem :
      rounds_below_int (data_pg1 li) (add_word (data_pg1 li) (data_npg li)) ≡ length fd
  data_rounds_lem =
      rounds_below_int-add (data_pg1 li) (data_npg li) (length fd) (l.data_size ∙ l.data_frames)
        (omega (arith, l.data_at, l.data_frames, l.whole))

  stack_rounds_lem : (if is_negative (stack_npg args) then 0 else stack_npg args) ≡ length fs
  stack_rounds_lem =
      stack_rounds (stack_npg args) (length fs) (l.stack_size ∙ l.stack_frames)
        (omega (arith, l.stack_frames, l.whole))

  -- The page table with new pages for the text, the data and the stack.
  abbrev pub with_sections : (ℕ → Pte) → List Pte
  with_sections page =
      l.before
      ++ (pages page ft
          ++ (l.between ++ (pages writable_page fd ++ (l.gap ++ pages writable_page fs))))

  pub map_image_lem :
      (k : Kernel)
      → k.frame_list ≡ ft ++ (fd ++ (fs ++ rest))
      → map_image li args table k
        ≡ ok (with_sections writable_page) (record k { frame_list = rest })
  unfolding map_image
  map_image_lem k frames =
      let x : List Pte = pages writable_page ft in
      let y : List Pte = pages writable_page fd in
      let z : List Pte = pages writable_page fs in
      let a₂ : List Pte = l.before ++ (x ++ l.between) in
      let a₃ : List Pte = a₂ ++ (y ++ l.gap) in
      let k₁ : Kernel = record k { frame_list = fd ++ (fs ++ rest) } in
      let k₂ : Kernel = record k { frame_list = fs ++ rest } in
      let len₂ : length a₂ ≡ length l.before + (length x + length l.between) =
        length-append l.before (x ++ l.between)
        ∙ ap (λ n. length l.before + n) (length-append x l.between) in
      let len₃ : length a₃ ≡ length a₂ + (length y + length l.gap) =
        length-append a₂ (y ++ l.gap) ∙ ap (λ n. length a₂ + n) (length-append y l.gap) in
      let at₂ : data_pg1 li ≡ length a₂ =
        l.data_at ∙ omega (arith, len₂, length-pages writable_page ft, l.text_frames) in
      let at₃ : sub_word region_pages (stack_npg args) ≡ length a₃ =
        sub_rest (stack_npg args) (length a₃) (
          omega (
            arith,
            l.whole,
            l.stack_size,
            len₂,
            len₃,
            length-pages writable_page ft,
            length-pages writable_page fd,
            l.text_frames,
            l.data_frames,
          )) in
      let text_done =
        map_pages_at ft (fd ++ (fs ++ rest)) l.before l.text
          (l.between ++ (l.data_pages ++ (l.gap ++ l.stack))) k (text_rounds li) (text_pg1 li) table
          l.text_frames frames text_rounds_lem l.text_at l.parts in
      let data_done =
        map_pages_at fd (fs ++ rest) a₂ l.data_pages (l.gap ++ l.stack) k₁
          (rounds_below_int (data_pg1 li) (add_word (data_pg1 li) (data_npg li))) (data_pg1 li)
          (l.before ++ (x ++ (l.between ++ (l.data_pages ++ (l.gap ++ l.stack))))) l.data_frames
          refl data_rounds_lem at₂ (simp append_assoc) in
      let stack_done =
        map_pages_at fs rest a₃ l.stack [] k₂
          (if is_negative (stack_npg args) then 0 else stack_npg args)
          (sub_word region_pages (stack_npg args)) (a₂ ++ (y ++ (l.gap ++ l.stack))) l.stack_frames
          refl stack_rounds_lem at₃ (simp (append_assoc, append-nil)) in
      rw text_done (rw data_done (rw stack_done (simp (append_assoc, append-nil))))

  pub protected_lem :
      protect_pages (text_rounds li) (text_pg1 li) (with_sections writable_page)
      ≡ with_sections text_page
  protected_lem = rw text_rounds_lem (
      rw l.text_at (
        protect_pages_lem ft l.before
          (l.between ++ (pages writable_page fd ++ (l.gap ++ pages writable_page fs)))))
