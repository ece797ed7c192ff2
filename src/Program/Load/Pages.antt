-- ===== src/Program/Load/Pages.antt =====
-- The pages that `LoadProgram` maps.
use yalnix_operating_system.Base.{
  ℕ, zero, suc, ◌+◌, ◌≡◌, refl, ap, ◌∙◌, some, List, [], ◌∷◌, ◌++◌, length, arith, get_elem?, set,
}
use mathlib.Core.List.{append_assoc}
use yalnix_operating_system.LinkedList.{ListNode, NodeList}
use yalnix_operating_system.Kernel.State.{Kernel, Pte}
use yalnix_operating_system.Kernel.Run.{ok}
use yalnix_operating_system.Memory.Frames.{fnum_to_pfn}
use yalnix_operating_system.Memory.Pointers.{prot_read}
use yalnix_operating_system.Program.Load.{writable_page, prot_exec, map_pages, protect_pages}

-- A page of the text once it is protected.
abbrev pub text_page : ℕ → Pte
text_page f = record { valid = 1; prot = prot_read + prot_exec; pfn = fnum_to_pfn f }

abbrev pub pages : (ℕ → Pte) → NodeList → List Pte
pages page [] = []
pages page (n ∷ ns) = page n.id ∷ pages page ns

set-append :
    {A : Type 0} (a : List A) (e v : A) (r : List A)
    → set (a ++ e ∷ r) (length a) v ≡ (a ++ v ∷ []) ++ r
set-append [] e v r = refl
set-append (x ∷ a) e v r = ap (◌∷◌ x) (set-append a e v r)

get_elem?-append :
    {A : Type 0} (a : List A) (e : A) (r : List A) → get_elem? (a ++ e ∷ r) (length a) ≡ some e
get_elem?-append [] e r = refl
get_elem?-append (x ∷ a) e r = get_elem?-append a e r

length-snoc : {A : Type 0} (a : List A) (e : A) → length (a ++ e ∷ []) ≡ length a + 1
length-snoc [] e = omega arith
length-snoc (x ∷ a) e = omega (arith, length-snoc a e)

map_pages_none :
    (i : ℕ) (table : List Pte) (rest : NodeList) (k : Kernel)
    → k.frame_list ≡ rest
    → map_pages zero i table k ≡ ok table (record k { frame_list = rest })
unfolding map_pages
map_pages_none i table rest k frames = ground arith

protect_pages_none : (i : ℕ) (table : List Pte) → protect_pages zero i table ≡ table
unfolding protect_pages
protect_pages_none i table = refl

map_pages_step :
    (m : ℕ) (n : ListNode) (others : NodeList) (a : List Pte) (e : Pte) (r : List Pte) (k : Kernel)
    → k.frame_list ≡ n ∷ others
    → map_pages (suc m) (length a) (a ++ e ∷ r) k
      ≡ map_pages m
          (length (a ++ writable_page n.id ∷ []))
          ((a ++ writable_page n.id ∷ []) ++ r)
          (record k { frame_list = others })
unfolding map_pages
map_pages_step m n others a e r k frames =
    let w : Pte = writable_page n.id in
    ground (arith, get_elem?-append a e r, set-append a e w r, length-snoc a w)

pub map_pages_lem :
    (fs rest : NodeList) (a x r : List Pte) (k : Kernel)
    → length x ≡ length fs
    → k.frame_list ≡ fs ++ rest
    → map_pages (length fs) (length a) (a ++ (x ++ r)) k
      ≡ ok (a ++ (pages writable_page fs ++ r)) (record k { frame_list = rest })
map_pages_lem [] rest a [] r k same frames = map_pages_none (length a) (a ++ r) rest k frames
map_pages_lem [] rest a (e ∷ x) r k same frames = absurd (omega arith)
map_pages_lem (n ∷ fs) rest a [] r k same frames = absurd (omega arith)
map_pages_lem (n ∷ fs) rest a (e ∷ x) r k same frames =
    let w : Pte = writable_page n.id in
    let k₁ : Kernel = record k { frame_list = fs ++ rest } in
    map_pages_step (length fs) n (fs ++ rest) a e (x ++ r) k frames
    ∙ map_pages_lem fs rest (a ++ w ∷ []) x r k₁ (omega arith) refl
    ∙ ap (λ t. ok t (record k { frame_list = rest }))
        (append_assoc a (w ∷ []) (pages writable_page fs ++ r))

protect_pages_step :
    (m : ℕ) (n : ListNode) (a r : List Pte)
    → protect_pages (suc m) (length a) (a ++ writable_page n.id ∷ r)
      ≡ protect_pages m (length (a ++ text_page n.id ∷ [])) ((a ++ text_page n.id ∷ []) ++ r)
unfolding protect_pages
protect_pages_step m n a r =
    let e : Pte = writable_page n.id in
    let w : Pte = text_page n.id in
    ground (arith, get_elem?-append a e r, set-append a e w r, length-snoc a w)

pub protect_pages_lem :
    (fs : NodeList) (a r : List Pte)
    → protect_pages (length fs) (length a) (a ++ (pages writable_page fs ++ r))
      ≡ a ++ (pages text_page fs ++ r)
protect_pages_lem [] a r = protect_pages_none (length a) (a ++ r)
protect_pages_lem (n ∷ fs) a r =
    let w : Pte = text_page n.id in
    protect_pages_step (length fs) n a (pages writable_page fs ++ r)
    ∙ protect_pages_lem fs (a ++ w ∷ []) r
    ∙ append_assoc a (w ∷ []) (pages text_page fs ++ r)
