-- ===== src/Process/Clock/Turn.antt =====
-- A clock trap as a whole: round robin.
use yalnix_operating_system.Base.{
  ℕ, ◌≡◌, ◌≢◌, refl, sym, ap, ◌∙◌, some, [], ◌∷◌, ◌++◌, arith, null, true, false, ltb, lt→ltb,
  if◌then◌else◌, Option-cases, inl, inr,
}
use yalnix_operating_system.LinkedList.{ListNode, NodeList, node, add_to_list, count_items}
use yalnix_operating_system.LinkedList.Laws.{add_to_list-append, Distinct}
use yalnix_operating_system.Kernel.State.{
  Kernel, Pcb, UserContext, trap_frame, after_clock, UcRef, Rest,
}
use yalnix_operating_system.Kernel.Run.{ok, switched, and_then-eq-ok, pure}
use yalnix_operating_system.Kernel.Switch.{switch_to_next_available_proc}
use yalnix_operating_system.Kernel.Switch.Laws.{CanSwitch, switch_to_next_available_proc-Switched}
use yalnix_operating_system.Process.Blocks.{check_block}
use yalnix_operating_system.Process.Clock.{visit, sweep, handle_trap_clock}
use yalnix_operating_system.Process.Clock.Visit.{pid_at}
use yalnix_operating_system.Process.Clock.Sweep.{stay_blocked, become_ready, Checkable, sweep_lem}

-- What a sweep leaves alone: who runs, the trap frames, and which processes there are.
abbrev Keeps : Kernel → Kernel → Type 0
Keeps k k' =
    (k'.curr_proc ≡ k.curr_proc) × (k'.frame_at ≡ k.frame_at) × ((q : ℕ) → pid_at k' q ≡ pid_at k q)

visit-Keeps : (p : ℕ) (k : Kernel) {k' : Kernel} → visit p k ≡ ok tt k' → Keeps k k'
unfolding visit check_block
visit-Keeps p k h = (ground arith, ground arith, λ q. ground arith)

sweep-Keeps : (ns : NodeList) (k : Kernel) {k' : Kernel} → sweep ns k ≡ ok tt k' → Keeps k k'
unfolding sweep
sweep-Keeps [] k h = ground arith
sweep-Keeps (n ∷ ns) k h =
    let (u, k₁, e, rest) = and_then-eq-ok (visit n.item k) _ h in
    let (c, f, p) = visit-Keeps n.item k e in
    let (c', f', p') = sweep-Keeps ns k₁ rest in (c' ∙ c, f' ∙ f, λ q. p' q ∙ p q)

proc_at :
    (k : Kernel) (q i : ℕ)
    → pid_at k q ≡ some i
    → (c : Pcb) × (k.procs q ≡ some c) × (c.proc_id ≡ i)
proc_at k q i h = elim (Option-cases (k.procs q)) [
  | inl e ↦ absurd (ground arith)
  | inr (c, e) ↦ (c, e, ground arith)
]

swept :
    (ns : NodeList) (k : Kernel)
    → (if ltb 0 (count_items ns) then sweep ns else pure tt) k ≡ sweep ns k
unfolding sweep
swept [] k = refl
swept (n ∷ ns) k = simp (lt→ltb 0 (count_items (n ∷ ns)) (omega arith)) refl

-- A switch that queues the caller is one that does not, with the caller already queued.
requeue :
    (k : Kernel) (uc : UcRef) (rest : Rest) (c : Pcb)
    → k.procs k.curr_proc ≡ some c
    → switch_to_next_available_proc uc rest true k
      ≡ switch_to_next_available_proc uc rest false
          (record k { ready_procs = add_to_list k.ready_procs k.curr_proc c.proc_id })
unfolding switch_to_next_available_proc
requeue k uc rest c e = simp e refl

module _ (k : Kernel) (c : Pcb) (u : UserContext) (distinct : Distinct k.blocked_procs)
    (checkable : Checkable k k.blocked_procs) (running : k.procs k.curr_proc ≡ some c)
    (not_null : k.curr_proc ≢ null) (trapped : k.frame_at k.curr_proc ≡ some u) where
  clock_as :
      (k₁ k' : Kernel)
      → sweep k.blocked_procs k ≡ ok tt k₁
      → ltb 0 (count_items k₁.ready_procs) ≡ true
      → switch_to_next_available_proc trap_frame after_clock true k₁ ≡ ok tt k'
      → handle_trap_clock k ≡ ok switched k'
  unfolding handle_trap_clock
  clock_as k₁ k' run more sw = simp (swept k.blocked_procs k) (simp run (simp more (simp sw refl)))

  -- A clock trap of a running process that exists, whose trap frame can be read, with a blocked
  -- queue of distinct processes that exist under their identifiers, the waiting ones for a process
  -- that exists, and of which the ready queue with those that become ready behind it is not empty
  -- and starts with a process: that process runs, the others follow in their order with the caller
  -- at the end, the processes whose block holds stay blocked, and the caller waits at the end of
  -- the trap.
  pub handle_trap_clock_lem :
      (n : ListNode) (others : NodeList) (i : ℕ)
      → k.ready_procs ++ become_ready k k.blocked_procs ≡ n ∷ others
      → pid_at k n.item ≡ some i
      → (k' : Kernel) × (handle_trap_clock k ≡ ok switched k')
        × (k'.curr_proc ≡ n.item)
        × (k'.ready_procs ≡ others ++ node c.proc_id k.curr_proc ∷ [])
        × (k'.blocked_procs ≡ stay_blocked k k.blocked_procs)
        × (k'.point_at k.curr_proc ≡ some (record { uc = trap_frame; rest = after_clock }))
  handle_trap_clock_lem n others i queue next =
      let (k₁, run, blocked, ready) = sweep_lem k distinct checkable in
      let (curr, frames, pids) = sweep-Keeps k.blocked_procs k run in
      let (c₁, e₁, i₁) = proc_at k₁ k.curr_proc c.proc_id (pids k.curr_proc ∙ ground arith) in
      let (n₁, en, _) = proc_at k₁ n.item i (pids n.item ∙ next) in
      let e : k₁.procs k₁.curr_proc ≡ some c₁ = ap k₁.procs curr ∙ e₁ in
      let k₂ : Kernel = record k₁ {
        ready_procs = add_to_list k₁.ready_procs k₁.curr_proc c₁.proc_id;
      } in
      let can : CanSwitch k₂ trap_frame n (add_to_list others k₁.curr_proc c₁.proc_id) = record {
        running = (c₁, e);
        not_null = λ z. not_null (sym curr ∙ z);
        has_uc = (u, ap k₁.frame_at curr ∙ ap (λ f. f k.curr_proc) frames ∙ trapped);
        queue = ap (λ l. add_to_list l k₁.curr_proc c₁.proc_id) (ready ∙ queue);
        next = (n₁, en);
      } in
      let (k', sw, s) = switch_to_next_available_proc-Switched k₂ trap_frame after_clock can in
      (
        k',
        clock_as k₁ k' run
            (lt→ltb 0 (count_items k₁.ready_procs) (rw (ready ∙ queue) (omega arith)))
            (requeue k₁ trap_frame after_clock c₁ e ∙ sw),
        s.curr,
        s.ready ∙ add_to_list-append others k₁.curr_proc c₁.proc_id ∙ rw (curr, i₁) refl,
        s.same.blocked_procs ∙ blocked,
        ap k'.point_at (sym curr) ∙ s.point,
      )
