-- ===== src/Process/Exit/Family.antt =====
-- What an exit does to the family of the process, step by step.
use yalnix_operating_system.Base.{
  ℕ, ◌≡◌, ◌≢◌, refl, ◌∙◌, Option, Option-cases, Bool-cases, ◌==◌, inl, inr, none, some, [], ◌∷◌,
  arith, null, update,
}
use yalnix_operating_system.LinkedList.{
  ListNode, NodeList, remove_from_list, find_by_id, find_by_data,
}
use yalnix_operating_system.Kernel.State.{Kernel, Pcb}
use yalnix_operating_system.Kernel.Run.{ok}
use yalnix_operating_system.Kernel.Switch.Same.{get_some}
use yalnix_operating_system.Process.Exit.{disown, discard}

-- A process but for its parent.
abbrev pub orphan : Option Pcb → Option Pcb
orphan none = none
orphan (some c) = some (record c { parent = null })

abbrev pub AllExist : Kernel → NodeList → Type 0
AllExist k [] = Unit {0}
AllExist k (n ∷ ns) = ((c : Pcb) × (k.procs n.item ≡ some c)) × AllExist k ns

abbrev pub AllOrphans : Kernel → NodeList → Type 0
AllOrphans k [] = Unit {0}
AllOrphans k (n ∷ ns) = (k.procs n.item ≡ orphan (k.procs n.item)) × AllOrphans k ns

AllExist-update :
    (k : Kernel) (p : ℕ) (c : Pcb) (ns : NodeList)
    → AllExist k ns
    → AllExist (record k { procs = update k.procs p (some c) }) ns
AllExist-update k p c [] h = tt
AllExist-update k p c (n ∷ ns) (e, h) = (get_some (ground (arith, e.1)), AllExist-update k p c ns h)

-- Every child loses its parent, and nothing else changes.
pub disown_lem :
    (ns : NodeList) (k : Kernel)
    → AllExist k ns
    → (k' : Kernel) × (disown ns k ≡ ok tt k')
      × (k' ≡ record k { procs = k'.procs })
      × ((q : ℕ) → orphan (k'.procs q) ≡ orphan (k.procs q))
unfolding disown
disown_lem [] k h = (k, refl, refl, λ q. refl)
disown_lem (n ∷ ns) k ((c, e), h) =
    let c₁ : Pcb = record c { parent = null } in
    let k₁ : Kernel = record k { procs = update k.procs n.item (some c₁) } in
    let (k', run, same, kin) = disown_lem ns k₁ (AllExist-update k n.item c₁ ns h) in
    (k', rw (e, disown) run, same ∙ refl, λ q. kin q ∙ ground arith)

find_by_data_ne :
    (ns : NodeList) (i fresh : ℕ) {d : ListNode}
    → find_by_data ns fresh ≡ none
    → find_by_id ns i ≡ some d
    → d.item ≢ fresh
find_by_data_ne [] i fresh h e = cc
find_by_data_ne (n ∷ ns) i fresh {d} h e = elim (Bool-cases (n.id == i)) [
  | inl hit ↦ ground arith
  | inr miss ↦ find_by_data_ne ns i fresh {d = d} (ground arith) (ground arith)
]

find_by_id-remove_none :
    (ns : NodeList) (d i : ℕ)
    → find_by_id ns i ≡ none
    → find_by_id (remove_from_list ns d).0 i ≡ none
find_by_id-remove_none [] d i h = refl
find_by_id-remove_none (n ∷ ns) d i h = ground (arith, find_by_id-remove_none ns d i)

find_by_data-remove :
    (ns : NodeList) (d fresh : ℕ)
    → find_by_data ns fresh ≡ none
    → find_by_data (remove_from_list ns d).0 fresh ≡ none
find_by_data-remove [] d fresh h = refl
find_by_data-remove (n ∷ ns) d fresh h = ground (arith, find_by_data-remove ns d fresh)

-- The statuses of the exited children go, and nothing else changes; `fresh` is none of them.
pub discard_lem :
    (ns : NodeList) (fresh : ℕ) (k : Kernel)
    → find_by_data k.dead_procs fresh ≡ none
    → (k' : Kernel) × (discard ns k ≡ ok tt k')
      × (k' ≡ record k { dead_procs = k'.dead_procs; status_at = k'.status_at })
      × (k'.status_at fresh ≡ k.status_at fresh)
      × (find_by_data k'.dead_procs fresh ≡ none)
      × ((i : ℕ) → find_by_id k.dead_procs i ≡ none → find_by_id k'.dead_procs i ≡ none)
unfolding discard
discard_lem [] fresh k h = (k, refl, refl, refl, h, λ i e. e)
discard_lem (n ∷ ns) fresh k h = elim (Option-cases (find_by_id k.dead_procs n.id)) [
  | inl e ↦
      let (k', run, same, kept, gone, absent) = discard_lem ns fresh k h in
      (k', rw e run, same, kept, gone, absent)
  | inr (d, e) ↦
      let k₁ : Kernel = record k {
        dead_procs = (remove_from_list k.dead_procs d.item).0;
        status_at = update k.status_at d.item none;
      } in
      let other : d.item ≢ fresh = find_by_data_ne k.dead_procs n.id fresh h e in
      let (k', run, same, kept, gone, absent) =
        discard_lem ns fresh k₁ (find_by_data-remove k.dead_procs d.item fresh h) in
      (
        k',
        rw e run,
        same ∙ refl,
        kept ∙ ground arith,
        gone,
        λ i e'. absent i (find_by_id-remove_none k.dead_procs d.item i e'),
      )
]
