-- ===== src/Process/Exit/Handover.antt =====
-- An exit as a whole, and the wait of the parent that finds it.
use yalnix_operating_system.Base.{
  ℕ, ◌≡◌, ◌≢◌, refl, sym, ap, ◌∙◌, Option, set, update, none, some, [], ◌∷◌, arith, null,
}
use yalnix_operating_system.LinkedList.{
  ListNode, NodeList, node, add_to_list, remove_from_list, find_by_id,
}
use yalnix_operating_system.LinkedList.Laws.{find_by_id-add_to_list}
use yalnix_operating_system.Kernel.State.{
  Kernel, Pcb, trap_frame, after_delay, after_wait, int_stored,
}
use yalnix_operating_system.Kernel.Run.{ok, switched, returns, is_ok-ok}
use yalnix_operating_system.Kernel.Switch.Same.{
  kept, perform_context_switch-Same, perform_context_switch-SameProcs,
}
use yalnix_operating_system.Kernel.Switch.Laws.{perform_context_switch-is_ok-null}
use yalnix_operating_system.Memory.Frames.{free_frames}
use yalnix_operating_system.Process.Exit.{or_empty, exit}
use yalnix_operating_system.Process.Exit.Family.{orphan}
use yalnix_operating_system.Process.Wait.{wait_resumed, collect, take_status}
use yalnix_operating_system.Kernel.Switch.{finish_context_switch}
use yalnix_operating_system.Dispatch.{resume, finish, set_retval}
use yalnix_operating_system.Process.Exit.Report.{
  CanExit, orphan-children, told, freed, exit_run, essence_of-none,
}

-- The exited children of a process.
abbrev pub exited_of : Option Pcb → Option NodeList
exited_of none = none
exited_of (some c) = c.exited_children

exited_there :
    (o : Option Pcb) (ns : NodeList)
    → exited_of o ≡ some ns
    → (q : Pcb) × (o ≡ some q) × (q.exited_children ≡ some ns)
exited_there none ns e = cc
exited_there (some c) ns e = (c, refl, e)

same_state : {A : Type 0} {a b : A} {k k' : Kernel} → ok a k ≡ ok b k' → k ≡ k'
same_state e = cc

-- A wait that was blocked, with one exited child whose status is filed, in the process `parent`.
wait_goes_on :
    (status_ptr retval fresh status parent pid : ℕ) (k : Kernel) (q : Pcb)
    → k.curr_proc ≡ parent
    → k.point_at parent ≡ some (record { uc = trap_frame; rest = after_wait parent status_ptr })
    → k.procs parent ≡ some q
    → q.exited_children ≡ some (node pid null ∷ [])
    → find_by_id k.dead_procs pid ≡ some (node pid fresh)
    → fresh ≢ null
    → k.status_at fresh ≡ some status
    → (k' : Kernel) × (q' : Pcb) × (resume retval k ≡ ok (returns (some pid)) k')
      × (k.procs parent ≡ some q')
      × (k'.log ≡ int_stored parent status_ptr status ∷ k.log)
      × (k'.frame_at parent ≡ some (let u = q'.uc in record u { regs = set u.regs 0 pid }))
      × (k'.procs parent ≡ some (record q' { exited_children = some [] }))
      × (k'.dead_procs ≡ (remove_from_list k.dead_procs fresh).0)
      × (k'.status_at fresh ≡ none)
unfolding resume finish finish_context_switch wait_resumed collect take_status set_retval
wait_goes_on status_ptr retval fresh status parent pid k q curr point at exited filed ne st =
    let u = q.uc in
    (
      record k {
        procs = update k.procs parent (some (record q { exited_children = some [] }));
        log = int_stored parent status_ptr status ∷ k.log;
        dead_procs = (remove_from_list k.dead_procs fresh).0;
        status_at = update k.status_at fresh none;
        frame_at =
            update (update k.frame_at parent (some u)) parent
              (some (record u { regs = set u.regs 0 pid }));
      },
      q,
      ground arith,
      at,
      refl,
      ground arith,
      ground arith,
      refl,
      ground arith,
    )

module _ (k : Kernel) (fresh status : ℕ) (c p : Pcb) (siblings : NodeList) (n : ListNode)
    (others : NodeList) (can : CanExit k fresh c p siblings n others) where
  -- An exit under the conditions of `CanExit`, with no status filed under the caller's identifier,
  -- ends in the first process of the ready queue, which leaves the queue. The caller's control
  -- block is freed, it leaves the list of all processes, the frames of its valid pages are free,
  -- its parent loses it as a child and finds its identifier at the end of its exited children, and
  -- its status is filed under its identifier.
  pub exit_lem :
      find_by_id k.dead_procs c.proc_id ≡ none
      → (k' : Kernel) × (q : Pcb) × (exit fresh status k ≡ ok switched k')
        × (k'.curr_proc ≡ n.item)
        × (k'.ready_procs ≡ others)
        × (k'.procs k.curr_proc ≡ none)
        × (k'.all_procs ≡ (remove_from_list k.all_procs k.curr_proc).0)
        × (k'.frame_list ≡ free_frames c.region1_pt (free_frames c.region0_pt k.frame_list))
        × (k'.procs c.parent ≡ some q)
        × (q.children ≡ some (remove_from_list siblings k.curr_proc).0)
        × (q.exited_children ≡ some (add_to_list (or_empty p.exited_children) null c.proc_id))
        × (k'.status_at fresh ≡ some status)
        × (find_by_id k'.dead_procs c.proc_id ≡ some (node c.proc_id fresh))
  exit_lem new =
      let (k₁, k₂, p', run₁, run₂, same₂, kin, hp, hs, hx, st, gone, absent) =
        told k fresh status c p siblings n others can in
      let (m, em, set) = can.next in
      let (m', em', _, _, set') = orphan-children (k₂.procs n.item) m (kin n.item ∙ ap orphan em) in
      let hr : k₂.ready_procs ≡ n ∷ others = ap (λ x. x.ready_procs) same₂ ∙ can.queue in
      let k₃ : Kernel = record (freed k₂ k.curr_proc fresh c.proc_id c.parent c p' siblings) {
        ready_procs = others;
      } in
      let at : k₃.procs n.item ≡ some m' = ground (arith, can.other_next, can.other_next_parent) in
      let (k', sw) = is_ok-ok _ (
        perform_context_switch-is_ok-null k.curr_proc n.item after_delay k₃ at
          (λ z. set (sym set' ∙ z))) in
      let (same, curr, ready) =
        perform_context_switch-Same k.curr_proc null n.item
          (record { uc = trap_frame; rest = after_delay }) k₃ sw in
      let procs =
        perform_context_switch-SameProcs k.curr_proc null n.item
          (record { uc = trap_frame; rest = after_delay }) k₃ sw in
      let (q, eq, ess) =
        kept k₃ k' c.parent
          (record p' {
            children = some (remove_from_list siblings k.curr_proc).0;
            exited_children = some (add_to_list (or_empty p'.exited_children) null c.proc_id);
          })
          procs (ground (arith, can.other_parent)) in
      (
        k',
        q,
        exit_run k fresh status c p siblings n others can k₁ k₂ k' p' run₁ run₂ hp hs hr
            (m', em', λ z. set (sym set' ∙ z)) sw,
        curr,
        ready,
        essence_of-none (k'.procs k.curr_proc) (procs k.curr_proc ∙ ground arith),
        same.all_procs ∙ ap (λ x. (remove_from_list x.all_procs k.curr_proc).0) same₂,
        same.frame_list
            ∙ ap (λ x. free_frames c.region1_pt (free_frames c.region0_pt x.frame_list)) same₂,
        eq,
        ap (λ x. x.children) ess,
        ap (λ x. x.exited_children) ess
            ∙ ap (λ x. some (add_to_list (or_empty x) null c.proc_id)) hx,
        ap (λ f. f fresh) same.status_at ∙ st,
        ap (λ ds. find_by_id ds c.proc_id) same.dead_procs
            ∙ find_by_id-add_to_list k₂.dead_procs fresh c.proc_id c.proc_id (absent c.proc_id new)
            ∙ ground arith,
      )

  -- When a process exits, with a parent that had no exited child, no status filed under its
  -- identifier, a family that exists and a ready queue whose first process, other than it and its
  -- parent, has a kernel context, then in any later state in which the parent is switched to,
  -- where it blocked in its wait, and in which the parent's exited children, the list of the dead
  -- and the status are as the exit left them, the wait goes on and returns: it stores the exit
  -- status at the caller's pointer in the parent's memory, puts the identifier of the process that
  -- exited into the parent's first register, takes it off the exited children, and frees the
  -- status.
  pub exit-wait :
      (status_ptr retval : ℕ) (k' k₁ : Kernel)
      → p.exited_children ≡ none
      → find_by_id k.dead_procs c.proc_id ≡ none
      → exit fresh status k ≡ ok switched k'
      → k₁.curr_proc ≡ c.parent
      → k₁.point_at c.parent
        ≡ some (record { uc = trap_frame; rest = after_wait c.parent status_ptr })
      → exited_of (k₁.procs c.parent) ≡ exited_of (k'.procs c.parent)
      → k₁.dead_procs ≡ k'.dead_procs
      → k₁.status_at fresh ≡ k'.status_at fresh
      → (k₂ : Kernel) × (q : Pcb) × (resume retval k₁ ≡ ok (returns (some c.proc_id)) k₂)
        × (k₁.procs c.parent ≡ some q)
        × (k₂.log ≡ int_stored c.parent status_ptr status ∷ k₁.log)
        × (k₂.frame_at c.parent ≡ some (let u = q.uc in record u { regs = set u.regs 0 c.proc_id }))
        × (k₂.procs c.parent ≡ some (record q { exited_children = some [] }))
        × (k₂.dead_procs ≡ (remove_from_list k₁.dead_procs fresh).0)
        × (k₂.status_at fresh ≡ none)
  exit-wait status_ptr retval k' k₁ first new run parent_runs point exited dead status_same =
      let (k₀, q₀, run₀, _, _, _, _, _, at, _, ex, st, filed) = exit_lem new in
      let same : k₀ ≡ k' = same_state (sym run₀ ∙ run) in
      let ex' : q₀.exited_children ≡ some (node c.proc_id null ∷ []) =
        ex ∙ ap (λ x. some (add_to_list (or_empty x) null c.proc_id)) first in
      let (q, there, left) =
        exited_there (k₁.procs c.parent) (node c.proc_id null ∷ [])
          (exited ∙ ap (λ x. exited_of (x.procs c.parent)) (sym same) ∙ ap exited_of at ∙ ex') in
      wait_goes_on status_ptr retval fresh status c.parent c.proc_id k₁ q parent_runs point there
        left (ap (λ ds. find_by_id ds c.proc_id) (dead ∙ sym (ap (λ x. x.dead_procs) same)) ∙ filed)
        can.fresh_status (status_same ∙ sym (ap (λ x. x.status_at fresh) same) ∙ st)
