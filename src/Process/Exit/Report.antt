-- ===== src/Process/Exit/Report.antt =====
-- What an exit leaves behind, and what the parent's wait finds of it.
use mathlib.Core.List.{append-nil}
use yalnix_operating_system.Base.{
  ℕ, suc, ◌≡◌, ◌≢◌, refl, ap, ◌∙◌, Option, none, some, [], ◌∷◌, arith, null, update,
}
use yalnix_operating_system.LinkedList.{
  ListNode, NodeList, add_to_list, remove_from_list, count_items, find_by_id, find_by_data,
}
use yalnix_operating_system.Kernel.State.{Kernel, Pcb, trap_frame, after_delay}
use yalnix_operating_system.Kernel.Run.{ok, switched}
use yalnix_operating_system.Kernel.Switch.{perform_context_switch}
use yalnix_operating_system.Kernel.Switch.Same.{essence_of}
use yalnix_operating_system.Memory.Frames.{free_frames}
use yalnix_operating_system.Process.Exit.{
  items_of, or_empty, disown, discard, report_to_parent, next_initialized, exit,
}
use yalnix_operating_system.Process.Exit.Family.{AllExist, orphan, disown_lem, discard_lem}
use yalnix_operating_system.Process.Exit.Next.{next_initialized_lem}

-- What `exit` wants: the process `c` that runs is not the first one, its parent `p` and its children
-- exist, `fresh` is an address that no status is filed under, and the first process of the ready queue,
-- which is neither the caller nor its parent, has a kernel context.
pub record CanExit (k : Kernel) (fresh : ℕ) (c p : Pcb) (siblings : NodeList) (n : ListNode)
    (others : NodeList) : Type 0 where
  pub running : k.procs k.curr_proc ≡ some c
  pub not_init : c.proc_id ≢ 0
  pub has_parent : c.parent ≢ null
  pub other_parent : c.parent ≢ k.curr_proc
  pub parent : k.procs c.parent ≡ some p
  pub siblings_of : p.children ≡ some siblings
  pub kids : AllExist k (items_of c.children)
  pub fresh_status : fresh ≢ null
  pub unused : find_by_data k.dead_procs fresh ≡ none
  pub queue : k.ready_procs ≡ n ∷ others
  pub next : (q : Pcb) × (k.procs n.item ≡ some q) × (q.kc_set ≢ 0)
  pub other_next : n.item ≢ k.curr_proc
  pub other_next_parent : n.item ≢ c.parent

report_to_parent_lem :
    (k : Kernel) (parent proc pid : ℕ) (p : Pcb) (siblings : NodeList)
    → parent ≢ null
    → k.procs parent ≡ some p
    → p.children ≡ some siblings
    → report_to_parent parent proc pid k
      ≡ ok tt (record k {
        procs = update k.procs parent (
            some (record p {
              children = some (remove_from_list siblings proc).0;
              exited_children = some (add_to_list (or_empty p.exited_children) null pid);
            }));
      })
unfolding report_to_parent
report_to_parent_lem k parent proc pid p siblings ne e s = ground arith

pub orphan-children :
    (o : Option Pcb) (p : Pcb)
    → orphan o ≡ orphan (some p)
    → (p' : Pcb) × (o ≡ some p')
      × (p'.children ≡ p.children)
      × (p'.exited_children ≡ p.exited_children)
      × (p'.kc_set ≡ p.kc_set)
orphan-children none p e = absurd (ground arith)
orphan-children (some p') p e = (p', refl, ground arith, ground arith, ground arith)

-- The state of an exit once the family has been told, before the process is freed.
pub told :
    (k : Kernel) (fresh status : ℕ) (c p : Pcb) (siblings : NodeList) (n : ListNode)
    (others : NodeList)
    → CanExit k fresh c p siblings n others
    → (k₁ k₂ : Kernel) × (p' : Pcb) × (disown
          (items_of c.children)
          (record k { status_at = update k.status_at fresh (some status) })
        ≡ ok tt k₁)
      × (discard (items_of c.exited_children) k₁ ≡ ok tt k₂)
      × (k₂ ≡ record k { procs = k₁.procs; dead_procs = k₂.dead_procs; status_at = k₂.status_at })
      × ((q : ℕ) → orphan (k₂.procs q) ≡ orphan (k.procs q))
      × (k₂.procs c.parent ≡ some p')
      × (p'.children ≡ some siblings)
      × (p'.exited_children ≡ p.exited_children)
      × (k₂.status_at fresh ≡ some status)
      × (find_by_data k₂.dead_procs fresh ≡ none)
      × ((i : ℕ) → find_by_id k.dead_procs i ≡ none → find_by_id k₂.dead_procs i ≡ none)
told k fresh status c p siblings n others can =
    let k₀ : Kernel = record k { status_at = update k.status_at fresh (some status) } in
    let (k₁, run₁, same₁, kin) = disown_lem (items_of c.children) k₀ can.kids in
    let (k₂, run₂, same₂, st, gone, absent) =
      discard_lem (items_of c.exited_children) fresh k₁
        (ap (λ x. find_by_data x.dead_procs fresh) same₁ ∙ can.unused) in
    let kin₂ : (q : ℕ) → orphan (k₂.procs q) ≡ orphan (k.procs q) =
      λ q. ap (λ x. orphan (x.procs q)) same₂ ∙ kin q in
    let (p', e, ch, ex, set) =
      orphan-children (k₂.procs c.parent) p (kin₂ c.parent ∙ ap orphan can.parent) in
    (
      k₁,
      k₂,
      p',
      run₁,
      run₂,
      same₂
          ∙ ap {A = Kernel} (λ x. record x { dead_procs = k₂.dead_procs; status_at = k₂.status_at })
              same₁,
      kin₂,
      e,
      ch ∙ can.siblings_of,
      ex,
      st ∙ ap (λ x. x.status_at fresh) same₁ ∙ ground arith,
      gone,
      λ i h. absent i (ap (λ x. find_by_id x.dead_procs i) same₁ ∙ h),
    )

pub essence_of-none : (o : Option Pcb) → essence_of o ≡ none → o ≡ none
essence_of-none none e = refl
essence_of-none (some c) e = cc

-- The state in which the switch of an exit is made.
abbrev pub freed : Kernel → (curr fresh pid parent : ℕ) → (c p : Pcb) → NodeList → Kernel
freed k curr fresh pid parent c p siblings = record k {
  all_procs = (remove_from_list k.all_procs curr).0;
  dead_procs = add_to_list k.dead_procs fresh pid;
  frame_list = free_frames c.region1_pt (free_frames c.region0_pt k.frame_list);
  procs =
      update
        (update k.procs parent (
          some (record p {
            children = some (remove_from_list siblings curr).0;
            exited_children = some (add_to_list (or_empty p.exited_children) null pid);
          })))
        curr none;
}

module _ (k : Kernel) (fresh status : ℕ) (c p : Pcb) (siblings : NodeList) (n : ListNode)
    (others : NodeList) (can : CanExit k fresh c p siblings n others) where
  pub exit_run :
      (k₁ k₂ k' : Kernel) (p' : Pcb)
      → disown
          (items_of c.children)
          (record k { status_at = update k.status_at fresh (some status) })
        ≡ ok tt k₁
      → discard (items_of c.exited_children) k₁ ≡ ok tt k₂
      → k₂.procs c.parent ≡ some p'
      → p'.children ≡ some siblings
      → k₂.ready_procs ≡ n ∷ others
      → (q : Pcb) × (k₂.procs n.item ≡ some q) × (q.kc_set ≢ 0)
      → perform_context_switch k.curr_proc null n.item
          (record { uc = trap_frame; rest = after_delay })
          (record (freed k₂ k.curr_proc fresh c.proc_id c.parent c p' siblings) {
            ready_procs = others;
          })
        ≡ ok tt k'
      → exit fresh status k ≡ ok switched k'
  unfolding exit
  exit_run k₁ k₂ k' p' run₁ run₂ hp hs hr (q, hq, set) sw =
      let k₃ : Kernel = freed k₂ k.curr_proc fresh c.proc_id c.parent c p' siblings in
      let pick : next_initialized (suc (count_items k₂.ready_procs)) k₃
          ≡ ok n.item (record k₃ { ready_procs = others }) =
        next_initialized_lem [] others n q (suc (count_items k₂.ready_procs)) k₃ hr tt
          (ground (arith, can.other_next, can.other_next_parent)) set (omega arith)
        ∙ rw (append-nil others) refl in
      let told : report_to_parent c.parent k.curr_proc c.proc_id k₂ ≡ ok tt _ =
        report_to_parent_lem k₂ c.parent k.curr_proc c.proc_id p' siblings can.has_parent hp hs in
      ground (arith, can.running, can.not_init, can.fresh_status)
