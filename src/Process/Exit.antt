-- ===== src/Process/Exit.antt =====
-- `Yalnix_Exit`.
pub mod Next
pub mod Family
pub mod Report
pub mod Handover
use yalnix_operating_system.Base.{
  ℕ, zero, suc, ◌*◌, ◌/◌, ◌%◌, ◌^◌, ◌&&◌, Option, none, some, List, [], ◌∷◌, if◌then◌else◌, ◌==◌,
  update, null, success, word_mod,
}
use yalnix_operating_system.LinkedList.{
  NodeList, init_list, add_to_list, remove_from_list, pop, count_items, find_by_id,
}
use yalnix_operating_system.Kernel.State.{Kernel, Pte, Pcb, trap_frame, after_delay}
use yalnix_operating_system.Kernel.Run.{
  Run, hangs, M, Outcome, switched, ◌>>=◌, ◌>>◌, pure, get, put, stop, crash, from, load_proc,
  store_proc,
}
use yalnix_operating_system.Memory.Frames.{free_frames}
use yalnix_operating_system.Kernel.Switch.{perform_context_switch}

-- The children that still live lose their parent, one after the other.
unfoldable pub disown : NodeList → M (Unit {0})
disown [] = pure tt
disown (n ∷ ns) = do
  child ← load_proc n.item
  store_proc n.item (record child { parent = null })
  disown ns

-- The statuses that nobody has collected are dropped.
unfoldable pub discard : NodeList → M (Unit {0})
discard [] = pure tt
discard (n ∷ ns) = do
  k ← get
  elim (find_by_id k.dead_procs n.id) [
    | none ↦ pure tt
    | some dead ↦ put (record k {
      dead_procs = (remove_from_list k.dead_procs dead.item).0;
      status_at = update k.status_at dead.item none;
    })
  ]
  discard ns

abbrev pub items_of : Option NodeList → NodeList
items_of none = []
items_of (some ns) = ns

abbrev or_empty : Option NodeList → NodeList
or_empty none = init_list
or_empty (some ns) = ns

unfoldable pub report_to_parent : (parent proc pid : ℕ) → M (Unit {0})
report_to_parent parent proc pid = if parent == null then pure tt else do
  c ← load_proc parent
  children ← from c.children
  store_proc parent (record c {
    children = some (remove_from_list children proc).0;
    exited_children = some (add_to_list (or_empty c.exited_children) null pid);
  })

-- The first process of the ready queue that has a kernel context; those before it go to the end.
-- With none at all the loop never ends, which shows after one round through the queue.
unfoldable pub next_initialized : ℕ → M ℕ
next_initialized zero k = hangs
next_initialized (suc fuel) k =
    (do
      let (node, others) = pop k.ready_procs
      next ← from node
      put (record k { ready_procs = others })
      c ← load_proc next.item
      if c.kc_set == 0
          then (do
            put (record k { ready_procs = add_to_list others next.item c.proc_id })
            next_initialized fuel)
          else pure next.item)
      k

-- `fresh` is what `malloc` returns for the exit status. No point is saved for a process that is gone,
-- so the `rest` of the switch is never run.
unfoldable pub exit : (fresh status : ℕ) → M Outcome
exit fresh status = if fresh == null then crash else do
  k ← get
  put (record k { status_at = update k.status_at fresh (some status) })
  let proc = k.curr_proc
  c ← load_proc proc
  let pid = c.proc_id
  if pid == 0 && count_items k.ready_procs == 0 then stop success else do
    disown (items_of c.children)
    discard (items_of c.exited_children)
    report_to_parent c.parent proc pid
    k₁ ← get
    put (record k₁ {
      all_procs = (remove_from_list k₁.all_procs proc).0;
      dead_procs = add_to_list k₁.dead_procs fresh pid;
      frame_list = free_frames c.region1_pt (free_frames c.region0_pt k₁.frame_list);
      procs = update k₁.procs proc none;
    })
    k₂ ← get
    next ← next_initialized (suc (count_items k₂.ready_procs))
    perform_context_switch proc null next (record { uc = trap_frame; rest = after_delay })
    pure switched
