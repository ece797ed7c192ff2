-- ===== src/Memory/Pointers/Gaps.antt =====
-- What the checks on pointers let through.
use Prim.Native.Nat.{bit_or, bit_or-bitwise, digits, max}
use yalnix_operating_system.Base.{
  ℕ, zero, suc, ◌+◌, ◌-◌, ◌*◌, ◌/◌, ◌%◌, ◌<◌, ◌≤◌, ◌≡◌, ◌≢◌, refl, sym, ap, ◌∙◌, some, arith,
  get_elem?, if◌then◌else◌, ◌==◌, false, is_negative, add_word, word_mod,
}
use yalnix_operating_system.Kernel.State.{Kernel, Pte, Pcb}
use yalnix_operating_system.Kernel.Run.{ok, and_then-eq-ok}
use yalnix_operating_system.Memory.Pointers.{
  page_size, vmem_1_base, vmem_1_limit, region_pages, chk_range, page_of, chk_valid, chk_read,
  chk_write, chk_rw, chk_page, chk_pages, chk_str,
}

-- `x | m` is not 0 if `m` is not.
digits_one : (n a : ℕ) → digits (λ b. b) max n a 1 ≢ 0
digits_one zero a = λ e. omega (arith, e)
digits_one (suc n) zero = λ e. omega (arith, e)
digits_one (suc n) (suc a) = λ e. omega (arith, e)

digits_two : (n a : ℕ) → digits (λ b. b) max n a 2 ≢ 0
digits_two zero a = λ e. omega (arith, e)
digits_two (suc n) zero = λ e. omega (arith, e)
digits_two (suc n) (suc a) = λ e. omega (arith, e, digits_one n (suc a / 2))

pub bit_or_one : (a : ℕ) → bit_or a 1 ≢ 0
bit_or_one a e = digits_one a a (sym (λ i. bit_or-bitwise a 1 i) ∙ e)

pub bit_or_two : (a : ℕ) → bit_or a 2 ≢ 0
bit_or_two a e = digits_two a a (sym (λ i. bit_or-bitwise a 2 i) ∙ e)

-- The page that a pointer into Region 1 is in, as the running process maps it.
abbrev pub Maps : Kernel → ℕ → Pte → Type 0
Maps k ptr e =
    (c : Pcb) × (k.procs k.curr_proc ≡ some c)
    × (get_elem? c.region1_pt (ptr / page_size - region_pages) ≡ some e)

-- For a pointer into Region 1 whose page has an entry in the running process's table, the checks
-- of `chk_str` on one page depend on the entry's `valid` bit alone: a mapped page passes with any
-- protection, an unmapped one does not.
pub chk_page_lem :
    (k : Kernel) (ptr : ℕ) (e : Pte)
    → vmem_1_base ≤ ptr
    → ptr < vmem_1_limit
    → Maps k ptr e
    → chk_page ptr k ≡ ok (if e.valid == 1 then 0 else 1) k
unfolding chk_page chk_range chk_valid page_of chk_rw chk_read chk_write
chk_page_lem k ptr e lo hi (c, hc, he) = ground (arith, bit_or_one e.prot, bit_or_two e.prot)

chk_page-state : (ptr : ℕ) (k : Kernel) {b : ℕ} {k' : Kernel} → chk_page ptr k ≡ ok b k' → k' ≡ k
unfolding chk_page chk_range chk_valid page_of chk_rw chk_read chk_write
chk_page-state ptr k h = ground arith

chk_pages_step :
    (n j ptr : ℕ) (k : Kernel)
    → chk_page ptr k ≡ ok 0 k
    → ((i : ℕ) → i < n → chk_page ((add_word ptr page_size + i * page_size) % word_mod) k ≡ ok 0 k)
    → ptr < word_mod
    → j < suc n
    → chk_page ((ptr + j * page_size) % word_mod) k ≡ ok 0 k
chk_pages_step n zero ptr k h rest w lt = ap (λ a. chk_page a k) (omega arith) ∙ h
chk_pages_step n (suc j) ptr k h rest w lt =
    ap (λ a. chk_page a k) (omega arith) ∙ rest j (omega arith)

-- What the loop of `chk_str` has passed, it has checked page by page.
chk_pages_lem :
    (n j ptr : ℕ) (k : Kernel) {k' : Kernel}
    → chk_pages n ptr k ≡ ok 0 k'
    → ptr < word_mod
    → j < n
    → chk_page ((ptr + j * page_size) % word_mod) k ≡ ok 0 k
unfolding chk_pages
chk_pages_lem zero j ptr k h w lt = elim lt [ ]
chk_pages_lem (suc n) j ptr k {k'} h w lt =
    let (bad, k₁, e, rest) = and_then-eq-ok (chk_page ptr k) _ h in
    let same : k₁ ≡ k = chk_page-state ptr k e in
    let zero_bad : bad ≡ 0 = ground (arith, rest) in
    chk_pages_step n j ptr k (e ∙ rw (zero_bad, same) refl)
      (λ i lt'.
        chk_pages_lem n i (add_word ptr page_size) k (sym (rw (zero_bad, same) refl) ∙ rest)
          (omega arith) lt')
      w lt

-- A text shorter than a page passes wherever it lies.
pub chk_str_short : (k : Kernel) (ptr len : ℕ) → len < page_size → chk_str ptr len k ≡ ok 0 k
unfolding chk_str chk_pages
chk_str_short k ptr len lt =
    let none_whole : len / page_size ≡ 0 = omega arith in
    let positive : is_negative len ≡ false = ground arith in rw (none_whole, positive) refl

-- If `chk_str` passes a text of a length that is not negative, at an address below 2^32, it has
-- found no fault with the page of any of the addresses that lie a multiple of the page size, below
-- the number of whole pages in the length, behind its start.
pub chk_str_pages :
    (k : Kernel) (ptr len : ℕ) (k' : Kernel) (j : ℕ)
    → ptr < word_mod
    → is_negative len ≡ false
    → chk_str ptr len k ≡ ok 0 k'
    → j < len / page_size
    → chk_page ((ptr + j * page_size) % word_mod) k ≡ ok 0 k
unfolding chk_str
chk_str_pages k ptr len k' j w neg h lt =
    chk_pages_lem (len / page_size) j ptr k (sym (rw neg refl) ∙ h) w lt
