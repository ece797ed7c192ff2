-- ===== src/Process/Clock/Sweep.antt =====
-- What the clock trap does to the blocked queue.
use mathlib.Core.List.{append-nil, append_assoc}
use yalnix_operating_system.Base.{
  ℕ, ◌≡◌, ◌≢◌, refl, sym, ap, subst, ◌∙◌, Option-cases, Bool, true, false, Bool-cases, inl, inr,
  arith, some, none, [], ◌∷◌, ◌++◌, if◌then◌else◌,
}
use yalnix_operating_system.LinkedList.{ListNode, NodeList, add_to_list, remove_from_list}
use yalnix_operating_system.LinkedList.Laws.{
  add_to_list-append, Apart, Distinct, remove_from_list-mid, Distinct-mid, Distinct-head,
}
use yalnix_operating_system.Kernel.State.{Kernel, Pcb}
use yalnix_operating_system.Kernel.Run.{ok}
use yalnix_operating_system.Process.Clock.{sweep}
use yalnix_operating_system.Process.Clock.Visit.{
  has_exited, lets_go, CanCheck, visited, visit_lem, visited-procs, visited-has_exited,
  visited-CanCheck,
}

-- The processes that a tick leaves blocked, and those that it makes ready.
abbrev pub goes : Kernel → ListNode → Bool
goes k n = elim (k.procs n.item) [ none ↦ false | some c ↦ lets_go k c.block ]

pub stay_blocked : Kernel → NodeList → NodeList
stay_blocked k [] = []
stay_blocked k (n ∷ ns) = if goes k n then stay_blocked k ns else n ∷ stay_blocked k ns

unfoldable pub become_ready : Kernel → NodeList → NodeList
become_ready k [] = []
become_ready k (n ∷ ns) = if goes k n then n ∷ become_ready k ns else become_ready k ns

-- Each node is a process, under its identifier; one that waits, waits for a process that exists.
abbrev pub Checkable : Kernel → NodeList → Type 0
Checkable k [] = Unit {0}
Checkable k (n ∷ ns) =
    ((c : Pcb) × (k.procs n.item ≡ some c) × (c.proc_id ≡ n.id) × CanCheck k c.block)
    × Checkable k ns

visited-Checkable :
    (k : Kernel) (n : ListNode) (c : Pcb) (ns : NodeList)
    → k.procs n.item ≡ some c
    → Apart n ns
    → Checkable k ns
    → Checkable (visited k n.item c) ns
visited-Checkable k n c [] e a h = tt
visited-Checkable k n c (m ∷ ms) e (i, d, a) ((q, f, g, w), h) = (
  (q, visited-procs k n.item m.item c d ∙ f, g, visited-CanCheck k n.item c q.block e w),
  visited-Checkable k n c ms e a h,
)

goes_same :
    (k₁ k : Kernel) (m : ListNode)
    → k₁.procs m.item ≡ k.procs m.item
    → ((q : ℕ) → has_exited k₁ q ≡ has_exited k q)
    → goes k₁ m ≡ goes k m
goes_same k₁ k m e h = elim (Option-cases (k.procs m.item)) [
  | inl f ↦ ground arith
  | inr (q, f) ↦ ground (arith, h q.block.obj_ptr)
]

visited-goes :
    (k : Kernel) (n m : ListNode) (c : Pcb)
    → k.procs n.item ≡ some c
    → n.item ≢ m.item
    → goes (visited k n.item c) m ≡ goes k m
visited-goes k n m c e d =
    goes_same (visited k n.item c) k m (visited-procs k n.item m.item c d)
      (λ q. visited-has_exited k n.item q c e)

visited-lists :
    (k : Kernel) (n : ListNode) (c : Pcb) (ns : NodeList)
    → k.procs n.item ≡ some c
    → Apart n ns
    → (stay_blocked (visited k n.item c) ns ≡ stay_blocked k ns)
      × (become_ready (visited k n.item c) ns ≡ become_ready k ns)
unfolding stay_blocked become_ready
visited-lists k n c [] e a = (refl, refl)
visited-lists k n c (m ∷ ms) e (i, d, a) =
    let (s, r) = visited-lists k n c ms e a in
    (rw (visited-goes k n m c e d, s), rw (visited-goes k n m c e d, r))

goes-lets_go :
    (k : Kernel) (n : ListNode) (c : Pcb) (b : Bool)
    → k.procs n.item ≡ some c
    → goes k n ≡ b
    → lets_go k c.block ≡ b
goes-lets_go k n c b e h = ground arith

visited_go :
    (k : Kernel) (p : ℕ) (c : Pcb)
    → lets_go k c.block ≡ true
    → ((visited k p c).blocked_procs ≡ (remove_from_list k.blocked_procs p).0)
      × ((visited k p c).ready_procs ≡ add_to_list k.ready_procs p c.proc_id)
visited_go k p c h = ground arith

visited_stay :
    (k : Kernel) (p : ℕ) (c : Pcb)
    → lets_go k c.block ≡ false
    → ((visited k p c).blocked_procs ≡ k.blocked_procs)
      × ((visited k p c).ready_procs ≡ k.ready_procs)
visited_stay k p c h = ground arith

-- The walk over `ns`, with `ds` already left on the blocked queue.
sweep_from :
    (ns ds : NodeList) (k : Kernel)
    → k.blocked_procs ≡ ds ++ ns
    → Distinct (ds ++ ns)
    → Checkable k ns
    → (k' : Kernel) × (sweep ns k ≡ ok tt k')
      × (k'.blocked_procs ≡ ds ++ stay_blocked k ns)
      × (k'.ready_procs ≡ k.ready_procs ++ become_ready k ns)
unfolding sweep stay_blocked become_ready
sweep_from [] ds k b d h = (k, refl, b, sym (append-nil k.ready_procs))
sweep_from (n ∷ ns) ds k b d ((c, e, i, w), h) =
    let a : Apart n ns = Distinct-head n ds ns d in
    let h₁ : Checkable (visited k n.item c) ns = visited-Checkable k n c ns e a h in
    let (s, r) = visited-lists k n c ns e a in
    let visit_run = visit_lem k n.item c e w in
    elim (Bool-cases (goes k n)) [
      | inl go ↦
          let (bq, rq) = visited_go k n.item c (goes-lets_go k n c true e go) in
          let b₁ : (visited k n.item c).blocked_procs ≡ ds ++ ns =
            bq
            ∙ ap (λ (l : NodeList). (remove_from_list l n.item).0) b
            ∙ remove_from_list-mid n ds ns d in
          let (k', run, b', r') =
            sweep_from ns ds (visited k n.item c) b₁ (Distinct-mid n ds ns d) h₁ in
          (
            k',
            rw visit_run run,
            b' ∙ rw (s, go),
            r' ∙ rw (rq, r, go, add_to_list-append, i, append_assoc),
          )
      | inr stay ↦
          let (bq, rq) = visited_stay k n.item c (goes-lets_go k n c false e stay) in
          let joined : (ds ++ n ∷ []) ++ ns ≡ ds ++ n ∷ ns = append_assoc ds (n ∷ []) ns in
          let (k', run, b', r') =
            sweep_from ns (ds ++ n ∷ []) (visited k n.item c) (bq ∙ b ∙ sym joined)
              (subst Distinct (sym joined) d) h₁ in
          (k', rw visit_run run, b' ∙ rw (s, stay, append_assoc), r' ∙ rw (rq, r, stay))
    ]

-- The walk of a clock tick over a blocked queue of distinct processes that exist under their
-- identifiers, the waiting ones for a process that exists, ends. It moves the processes whose
-- block lets them go to the end of the ready queue, in the order of the blocked queue, and leaves
-- the others blocked, in their order.
pub sweep_lem :
    (k : Kernel)
    → Distinct k.blocked_procs
    → Checkable k k.blocked_procs
    → (k' : Kernel) × (sweep k.blocked_procs k ≡ ok tt k')
      × (k'.blocked_procs ≡ stay_blocked k k.blocked_procs)
      × (k'.ready_procs ≡ k.ready_procs ++ become_ready k k.blocked_procs)
sweep_lem k d h = sweep_from k.blocked_procs [] k refl d h
