-- ===== src/Process/Exit/Next.antt =====
-- Which process runs after an exit.
use mathlib.Core.List.{append_assoc, append-nil}
use yalnix_operating_system.Base.{
  ℕ, zero, suc, ◌<◌, ◌≡◌, ◌≢◌, refl, sym, subst, ◌∙◌, some, [], ◌∷◌, ◌++◌, arith, length,
}
use yalnix_operating_system.LinkedList.{ListNode, NodeList, node, add_to_list}
use yalnix_operating_system.LinkedList.Laws.{add_to_list-append}
use yalnix_operating_system.Kernel.State.{Kernel, Pcb}
use yalnix_operating_system.Kernel.Run.{ok, hangs}
use yalnix_operating_system.Process.Exit.{next_initialized}

-- Processes that have no kernel context yet, under their identifiers.
abbrev pub AllBlank : Kernel → NodeList → Type 0
AllBlank k [] = Unit {0}
AllBlank k (n ∷ ns) =
    ((c : Pcb) × (k.procs n.item ≡ some c) × (c.proc_id ≡ n.id) × (c.kc_set ≡ 0)) × AllBlank k ns

AllBlank-append :
    (k : Kernel) (ms ns : NodeList) → AllBlank k ms → AllBlank k ns → AllBlank k (ms ++ ns)
AllBlank-append k [] ns a b = b
AllBlank-append k (m ∷ ms) ns (h, a) b = (h, AllBlank-append k ms ns a b)

-- If the ready queue is a run of processes that have no kernel context, under their identifiers,
-- then one that has, and others, the loop of an exit ends within more rounds than the run has
-- processes, and picks that process; the run has gone to the end of the queue.
pub next_initialized_lem :
    (us rest : NodeList) (n : ListNode) (c : Pcb) (fuel : ℕ) (k : Kernel)
    → k.ready_procs ≡ us ++ n ∷ rest
    → AllBlank k us
    → k.procs n.item ≡ some c
    → c.kc_set ≢ 0
    → length us < fuel
    → next_initialized fuel k ≡ ok n.item (record k { ready_procs = rest ++ us })
unfolding next_initialized
next_initialized_lem us rest n c zero k e blank h set lt = elim lt [ ]
next_initialized_lem [] rest n c (suc fuel) k e blank h set lt = ground (arith, append-nil rest)
next_initialized_lem (u ∷ us) rest n c (suc fuel) k e ((b, f, i, z), blank) h set lt =
    let k₁ : Kernel = record k { ready_procs = add_to_list (us ++ n ∷ rest) u.item b.proc_id } in
    let turned : add_to_list (us ++ n ∷ rest) u.item b.proc_id ≡ us ++ n ∷ (rest ++ u ∷ []) =
      add_to_list-append (us ++ n ∷ rest) u.item b.proc_id
      ∙ rw i (append_assoc us (n ∷ rest) (u ∷ [])) in
    ground (
      arith,
      next_initialized_lem us (rest ++ u ∷ []) n c fuel k₁ turned blank h set,
      append_assoc rest (u ∷ []) us,
    )

-- If no process of a ready queue that is not empty has a kernel context, all under their
-- identifiers, the loop of an exit ends within no number of rounds.
pub next_initialized_hangs :
    (fuel : ℕ) (u : ListNode) (us : NodeList) (k : Kernel)
    → k.ready_procs ≡ u ∷ us
    → AllBlank k (u ∷ us)
    → next_initialized fuel k ≡ hangs
unfolding next_initialized
next_initialized_hangs zero u us k e blank = refl
next_initialized_hangs (suc fuel) u [] k e ((b, f, i, z), blank) =
    let k₁ : Kernel = record k { ready_procs = node b.proc_id u.item ∷ [] } in
    ground
      (arith, next_initialized_hangs fuel (node b.proc_id u.item) [] k₁ refl ((b, f, refl, z), tt))
next_initialized_hangs (suc fuel) u (v ∷ vs) k e ((b, f, i, z), (hv, blank)) =
    let k₁ : Kernel = record k { ready_procs = v ∷ add_to_list vs u.item b.proc_id } in
    let turned : AllBlank k₁ (add_to_list vs u.item b.proc_id) =
      subst (AllBlank k) (sym (add_to_list-append vs u.item b.proc_id))
        (AllBlank-append k vs (node b.proc_id u.item ∷ []) blank ((b, f, refl, z), tt)) in
    ground
      (arith, next_initialized_hangs fuel v (add_to_list vs u.item b.proc_id) k₁ refl (hv, turned))
