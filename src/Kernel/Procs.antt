-- ===== src/Kernel/Procs.antt =====
-- Lists whose nodes are processes, under their identifiers.
use yalnix_operating_system.Base.{ℕ, ◌≡◌, ◌≢◌, refl, ap, ◌∙◌, some, List, [], ◌∷◌, ◌++◌, null}
use yalnix_operating_system.LinkedList.{NodeList, add_to_list}
use yalnix_operating_system.Kernel.State.{Kernel, Pcb}
use yalnix_operating_system.Kernel.Switch.Same.{SameProcs, proc_id_of}

abbrev pub ids : NodeList → List ℕ
ids [] = []
ids (n ∷ ns) = n.id ∷ ids ns

-- Each node is a process, under its own identifier.
abbrev pub AllProcs : Kernel → NodeList → Type 0
AllProcs k [] = Unit {0}
AllProcs k (n ∷ ns) =
    (n.item ≢ null) × ((c : Pcb) × (k.procs n.item ≡ some c) × (c.proc_id ≡ n.id)) × AllProcs k ns

pub ids-add_to_list : (ns : NodeList) (d i : ℕ) → ids (add_to_list ns d i) ≡ ids ns ++ i ∷ []
ids-add_to_list [] d i = refl
ids-add_to_list (n ∷ ns) d i = ap (◌∷◌ n.id) (ids-add_to_list ns d i)

pub AllProcs-Same :
    (k k' : Kernel) (ns : NodeList) → SameProcs k k' → AllProcs k ns → AllProcs k' ns
AllProcs-Same k k' [] same all = tt
AllProcs-Same k k' (n ∷ ns) same (ne, (c, e, i), rest) =
    let (c', e', i') = proc_id_of k k' n.item c same e in
    (ne, (c', e', i' ∙ i), AllProcs-Same k k' ns same rest)

pub AllProcs-add_to_list :
    (k : Kernel) (ns : NodeList) (p : ℕ) (c : Pcb)
    → AllProcs k ns
    → p ≢ null
    → k.procs p ≡ some c
    → AllProcs k (add_to_list ns p c.proc_id)
AllProcs-add_to_list k [] p c all ne e = (ne, (c, e, refl), tt)
AllProcs-add_to_list k (n ∷ ns) p c (a, b, rest) ne e =
    (a, b, AllProcs-add_to_list k ns p c rest ne e)
