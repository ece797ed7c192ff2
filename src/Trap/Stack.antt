-- ===== src/Trap/Stack.antt =====
-- What the growth of a stack leaves in the page table.
use yalnix_operating_system.Base.{
  ℕ, zero, suc, ◌+◌, ◌≤◌, ◌<◌, ◌≡◌, ◌≢◌, ◌⊎◌, refl, sym, ap, ◌∙◌, Bool, true, false, Bool-cases,
  Option-cases, inl, inr, none, some, List, [], ◌∷◌, arith, get_elem?, set, length, update,
  length-set, get_elem?-set_self, get_elem?-set_ne, get_elem?-none_lem, get_elem?-some_lem, Option,
  ◌==◌, ◌-◌, not, leb, if◌then◌else◌,
}
use yalnix_operating_system.Kernel.State.{Kernel, Pte, Pcb}
use yalnix_operating_system.Kernel.Run.{ok}
use yalnix_operating_system.Memory.Frames.{fnum_to_pfn}
use yalnix_operating_system.Memory.Pointers.{region_pages, prot_read, prot_write}
use yalnix_operating_system.Trap.{map_page, grow_stack}

abbrev valid_of : Option Pte → ℕ
valid_of none = 0
valid_of (some e) = e.valid

List-cases : {A : Type 0} (xs : List A) → (xs ≡ []) ⊎ ((x : A) × (ys : List A) × (xs ≡ x ∷ ys))
List-cases [] = inl refl
List-cases (x ∷ xs) = inr (x, xs, refl)

abbrev is_unmapped : Option Pte → Bool
is_unmapped none = false
is_unmapped (some e) = not (e.valid == 1)

abbrev unmapped_at : ℕ → List Pte → ℕ
unmapped_at i t = if is_unmapped (get_elem? t i) then 1 else 0

-- How many of the `n` pages from `i` on the table has but does not map.
abbrev pub missing : (n i : ℕ) → List Pte → ℕ
missing zero i t = 0
missing (suc n) i t = unmapped_at i t + missing n (i + 1) t

missing_same :
    (n i : ℕ) (t t' : List Pte)
    → ((j : ℕ) → i ≤ j → get_elem? t' j ≡ get_elem? t j)
    → missing n i t' ≡ missing n i t
missing_same zero i t t' same = refl
missing_same (suc n) i t t' same =
    let here : unmapped_at i t' ≡ unmapped_at i t =
      ap {B = ℕ} (λ o. if is_unmapped o then 1 else 0) (same i (omega arith)) in
    let rest = missing_same n (i + 1) t t' (λ j le. same j (omega (arith, le))) in
    omega (arith, here, rest)

-- The pages from `i` to `j - 1` are mapped, and those before `i` are the same.
abbrev pub Grown : (n i : ℕ) (b : Bool) (t t' : List Pte) → Type 0
Grown n i b t t' =
    (length t' ≡ region_pages)
    × ((j : ℕ) → j < i → get_elem? t' j ≡ get_elem? t j)
    × (b ≡ true → (j : ℕ) (e : Pte) → get_elem? t' j ≡ some e → i ≤ j → j < i + n → e.valid ≡ 1)

Grown-step :
    (n i : ℕ) (b : Bool) (t t₁ t' : List Pte)
    → ((e : Pte) → get_elem? t₁ i ≡ some e → e.valid ≡ 1)
    → ((j : ℕ) → j ≢ i → get_elem? t₁ j ≡ get_elem? t j)
    → Grown n (i + 1) b t₁ t'
    → Grown (suc n) i b t t'
Grown-step n i b t t₁ t' valid other (len, before, all) = (
  len,
  λ j lt. before j (omega arith) ∙ other j (λ e. omega (arith, e)),
  λ z j e get le lt. elim (Bool-cases (j == i)) [
    | inl q ↦
        let same : j ≡ i = ground arith in
        valid e (sym (before i (omega arith)) ∙ sym (ap (get_elem? t') same) ∙ get)
    | inr q ↦ let other_page : j ≢ i = ground arith in all z j e get (omega arith) (omega arith)
  ],
)

-- What one round leaves.
map_page_lem :
    (i : ℕ) (k : Kernel) (c : Pcb)
    → k.procs k.curr_proc ≡ some c
    → length c.region1_pt ≡ region_pages
    → i ≤ region_pages
    → (b : Bool) × (k' : Kernel) × (c' : Pcb) × (map_page 1 i c (get_elem? c.region1_pt i) k
        ≡ ok b k')
      × (k'.curr_proc ≡ k.curr_proc)
      × (k'.procs k.curr_proc ≡ some c')
      × (length c'.region1_pt ≡ region_pages)
      × ((j : ℕ) → j ≢ i → get_elem? c'.region1_pt j ≡ get_elem? c.region1_pt j)
      × (b ≡ true → (e : Pte) → get_elem? c'.region1_pt i ≡ some e → e.valid ≡ 1)
      × (b ≡ leb (unmapped_at i c.region1_pt) (length k.frame_list))
      × (length k'.frame_list ≡ length k.frame_list - unmapped_at i c.region1_pt)
unfolding map_page
map_page_lem i k c e len le = elim (Option-cases (get_elem? c.region1_pt i)) [
  | inl out ↦
      let last : i ≡ region_pages = omega (arith, get_elem?-none_lem c.region1_pt i out) in
      (
        true,
        k,
        c,
        simp out (ground arith),
        refl,
        e,
        len,
        λ j ne. refl,
        λ z v get. cc (out, get),
        ground (arith, out),
        ground (arith, out),
      )
  | inr (v, at) ↦ elim (Bool-cases (v.valid == 1)) [
    | inl valid ↦ (
      true,
      k,
      c,
      simp at (simp valid refl),
      refl,
      e,
      len,
      λ j ne. refl,
      λ z v get. ground (arith, valid, at, get),
      ground (arith, valid, at),
      ground (arith, valid, at),
    )
    | inr invalid ↦ elim (List-cases k.frame_list) [
      | inl empty ↦ (
        false,
        k,
        c,
        simp at (simp invalid (ground arith)),
        refl,
        e,
        len,
        λ j ne. refl,
        λ z v get. cc,
        ground (arith, invalid, at, empty),
        ground (arith, invalid, at, empty),
      )
      | inr (f, others, frames) ↦
          let page : Pte = record {
            valid = 1;
            prot = prot_read + prot_write;
            pfn = fnum_to_pfn f.id;
          } in
          let c₁ : Pcb = record c { region1_pt = set c.region1_pt i page } in
          (
            true,
            record k { frame_list = others; procs = update k.procs k.curr_proc (some c₁) },
            c₁,
            simp at (simp invalid (ground arith)),
            refl,
            ground arith,
            length-set c.region1_pt i page ∙ len,
            λ j ne. get_elem?-set_ne c.region1_pt i j page (λ q. ne (sym q)),
            λ z w get.
                ap (λ o. valid_of o)
                  (sym get
                    ∙ get_elem?-set_self c.region1_pt i page
                        (get_elem?-some_lem c.region1_pt i at)),
            ground (arith, invalid, at, frames),
            ground (arith, invalid, at, frames),
          )
    ]
  ]
]

-- What the loop says, and what it leaves of the free frames, from what one round does.
enough_step :
    (b₁ b : Bool) (m₁ m free free₁ : ℕ)
    → b₁ ≡ leb m₁ free
    → free₁ ≡ free - m₁
    → b₁ ≡ true
    → b ≡ leb m free₁
    → b ≡ leb (m₁ + m) free
enough_step b₁ b m₁ m free free₁ e f z g = ground (arith, e, f, z, g)

left_step :
    (b₁ : Bool) (m₁ m free free₁ free₂ : ℕ)
    → b₁ ≡ leb m₁ free
    → free₁ ≡ free - m₁
    → b₁ ≡ true
    → free₂ + m ≡ free₁
    → free₂ + (m₁ + m) ≡ free
left_step b₁ m₁ m free free₁ free₂ e f z g = ground (arith, e, f, z, g)

short_step : (b₁ : Bool) (m₁ m free : ℕ) → b₁ ≡ leb m₁ free → b₁ ≡ false → false ≡ leb (m₁ + m) free
short_step b₁ m₁ m free e z = ground (arith, e, z)

-- With 1 in the `valid` bit behind the table, the loop that grows the stack ends, for a running
-- process with 128 pages and a range that ends at most one page behind them. It succeeds exactly
-- if there are at least as many free frames as pages of the range that the table has and does not
-- map, and takes as many frames then. Pages in front of the range are unchanged; if the loop
-- succeeds, every page of the range that the table has is mapped.
pub grow_stack_lem :
    (n i : ℕ) (k : Kernel) (c : Pcb)
    → k.procs k.curr_proc ≡ some c
    → length c.region1_pt ≡ region_pages
    → i + n ≤ region_pages + 1
    → (b : Bool) × (k' : Kernel) × (c' : Pcb) × (grow_stack 1 n i k ≡ ok b k')
      × (k'.procs k.curr_proc ≡ some c')
      × (b ≡ leb (missing n i c.region1_pt) (length k.frame_list))
      × (b ≡ true → length k'.frame_list + missing n i c.region1_pt ≡ length k.frame_list)
      × Grown n i b c.region1_pt c'.region1_pt
unfolding grow_stack
grow_stack_lem zero i k c e len le = (
  true,
  k,
  c,
  refl,
  e,
  ground arith,
  λ z. omega arith,
  (len, λ j lt. refl, λ z j e' get a b. absurd (omega arith)),
)
grow_stack_lem (suc n) i k c e len le =
    let (b₁, k₁, c₁, run₁, curr, e₁, len₁, other, valid, enough, left) =
      map_page_lem i k c e len (omega arith) in
    elim (Bool-cases b₁) [
      | inl z ↦
          let (b, k', c', run, e', enough', left', grown) =
            grow_stack_lem n (i + 1) k₁ c₁ (ap k₁.procs curr ∙ e₁) len₁ (omega arith) in
          let same : missing n (i + 1) c₁.region1_pt ≡ missing n (i + 1) c.region1_pt =
            missing_same n (i + 1) c.region1_pt c₁.region1_pt
              (λ j lt. other j (λ q. omega (arith, q, lt))) in
          (
            b,
            k',
            c',
            simp e (simp run₁ (simp z run)),
            sym (ap k'.procs curr) ∙ e',
            enough_step b₁ b (unmapped_at i c.region1_pt) (missing n (i + 1) c.region1_pt)
                (length k.frame_list) (length k₁.frame_list) enough left z
                (enough' ∙ ap (λ m. leb m (length k₁.frame_list)) same),
            λ w.
                left_step b₁ (unmapped_at i c.region1_pt) (missing n (i + 1) c.region1_pt)
                  (length k.frame_list) (length k₁.frame_list) (length k'.frame_list) enough left z
                  (omega (arith, left' w, same)),
            Grown-step n i b c.region1_pt c₁.region1_pt c'.region1_pt (valid z) other grown,
          )
      | inr z ↦ (
        false,
        k₁,
        c₁,
        simp e (simp run₁ (simp z refl)),
        e₁,
        short_step b₁ (unmapped_at i c.region1_pt) (missing n (i + 1) c.region1_pt)
            (length k.frame_list) enough z,
        λ w. cc,
        (len₁, λ j lt. other j (λ q. omega (arith, q)), λ w. cc),
      )
    ]
