-- ===== src/Process/Clock/Visit.antt =====
-- What the clock trap does to one process of the blocked queue.
use yalnix_operating_system.Base.{
  ℕ, ◌≡◌, ◌≢◌, ap, ◌∙◌, Option, Bool, true, false, not, Bool-cases, inl, inr, arith, some, none,
  if◌then◌else◌, ◌==◌, ltb, update, sub_word, error,
}
use yalnix_operating_system.LinkedList.{add_to_list, remove_from_list}
use yalnix_operating_system.Kernel.Switch.Same.{get_some}
use yalnix_operating_system.Kernel.State.{Kernel, Pcb, Block, zero_block}
use yalnix_operating_system.Kernel.Run.{ok}
use yalnix_operating_system.Process.Blocks.{
  block_active, block_inactive, no_block, delay_block, wait_block, blocked, unblocked, has_items,
  check_block,
}
use yalnix_operating_system.Process.Clock.{visit}

-- The process at `p` has children whose exit it has not seen.
abbrev pub has_exited : Kernel → ℕ → Bool
has_exited k p = elim (k.procs p) [ none ↦ false | some c ↦ has_items c.exited_children ]

-- The block lets its process go at this tick.
abbrev pub lets_go : Kernel → Block → Bool
lets_go k b =
    if b.active == block_inactive
    then true
    else if not (b.active == block_active)
    then false
    else if b.type == no_block
    then true
    else if b.type == delay_block
    then not (ltb 1 b.delay_count)
    else if b.type == wait_block
    then has_exited k b.obj_ptr
    else false

abbrev pub with_block : Kernel → ℕ → Pcb → Block → Kernel
with_block k p c b = record k { procs = update k.procs p (some (record c { block = b })) }

abbrev pub checked : Kernel → ℕ → Pcb → Kernel
checked k p c =
    if c.block.active == block_inactive
    then k
    else if not (c.block.active == block_active)
    then k
    else if lets_go k c.block
    then with_block k p c zero_block
    else if c.block.type == delay_block
    then (let b = c.block in with_block k p c (record b { delay_count = sub_word b.delay_count 1 }))
    else k

-- A wait for a process that exists.
abbrev pub CanCheck : Kernel → Block → Type 0
CanCheck k b = b.type ≡ wait_block → (q : Pcb) × (k.procs b.obj_ptr ≡ some q)

abbrev pub verdict : Kernel → Block → ℕ
verdict k b =
    if lets_go k b
    then unblocked
    else if b.active == block_active
    then (if b.type == delay_block
        then blocked
        else if b.type == wait_block
        then blocked
        else error)
    else error

pub check_block_lem :
    (k : Kernel) (p : ℕ) (c : Pcb)
    → k.procs p ≡ some c
    → CanCheck k c.block
    → check_block p k ≡ ok (verdict k c.block) (checked k p c)
unfolding check_block
check_block_lem k p c e w = elim (Bool-cases (c.block.type == wait_block)) [
  | inl waits ↦ let (q, hq) = w (ground arith) in ground arith
  | inr other ↦ ground arith
]

verdict-lets_go : (k : Kernel) (b : Block) → (verdict k b == unblocked) ≡ lets_go k b
verdict-lets_go k b = ground arith

-- The state after the visit of a process: it moves from one queue to the other or stays.
abbrev pub moved : Kernel → ℕ → ℕ → Kernel
moved k p i = record k {
  blocked_procs = (remove_from_list k.blocked_procs p).0;
  ready_procs = add_to_list k.ready_procs p i;
}

abbrev pub visited : Kernel → ℕ → Pcb → Kernel
visited k p c = if lets_go k c.block then moved (checked k p c) p c.proc_id else checked k p c

abbrev pub pid_at : Kernel → ℕ → Option ℕ
pid_at k p = elim (k.procs p) [ none ↦ none | some c ↦ some c.proc_id ]

pid_at-checked :
    (k : Kernel) (p : ℕ) (c : Pcb) → k.procs p ≡ some c → pid_at (checked k p c) p ≡ some c.proc_id
pid_at-checked k p c e = ground arith

visit_as :
    (k k₁ : Kernel) (p v i : ℕ)
    → check_block p k ≡ ok v k₁
    → pid_at k₁ p ≡ some i
    → visit p k ≡ ok tt (if v == unblocked then moved k₁ p i else k₁)
unfolding visit
visit_as k k₁ p v i e at = ground arith

pub visit_lem :
    (k : Kernel) (p : ℕ) (c : Pcb)
    → k.procs p ≡ some c
    → CanCheck k c.block
    → visit p k ≡ ok tt (visited k p c)
visit_lem k p c e w =
    visit_as k (checked k p c) p (verdict k c.block) c.proc_id (check_block_lem k p c e w)
      (pid_at-checked k p c e)
    ∙ ap (λ (b : Bool). ok tt (if b then moved (checked k p c) p c.proc_id else checked k p c))
        (verdict-lets_go k c.block)

-- A visit changes the block of its process alone, and no family.
pub visited-procs : (k : Kernel) (p q : ℕ) (c : Pcb) → p ≢ q → (visited k p c).procs q ≡ k.procs q
visited-procs k p q c ne = ground arith

pub visited-has_exited :
    (k : Kernel) (p q : ℕ) (c : Pcb)
    → k.procs p ≡ some c
    → has_exited (visited k p c) q ≡ has_exited k q
visited-has_exited k p q c e = elim (Bool-cases (p == q)) [
  | inl same ↦ ground arith
  | inr other ↦ ground (arith, visited-procs k p q c)
]

pub visited-CanCheck :
    (k : Kernel) (p : ℕ) (c : Pcb) (b : Block)
    → k.procs p ≡ some c
    → CanCheck k b
    → CanCheck (visited k p c) b
visited-CanCheck k p c b e w t = elim (Bool-cases (p == b.obj_ptr)) [
  | inl same ↦ get_some (ground arith)
  | inr other ↦ let (q, h) = w t in (q, visited-procs k p b.obj_ptr c (ground arith) ∙ h)
]
