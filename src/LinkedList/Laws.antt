-- ===== src/LinkedList/Laws.antt =====
-- Laws of the list operations that the kernel's proofs use.
use yalnix_operating_system.Base.{
  ℕ, suc, ◌+◌, ◌≤◌, ◌<◌, inl, inr, Bool-cases, if◌then◌else◌, ◌≡◌, refl, ap, none, some, [], ◌∷◌,
  ◌++◌, arith, ◌==◌, ◌≢◌,
}
use yalnix_operating_system.LinkedList.{
  ListNode, node, NodeList, add_to_list, remove_from_list, count_items, find_by_id,
}

pub add_to_list-append : (ns : NodeList) (d i : ℕ) → add_to_list ns d i ≡ ns ++ node i d ∷ []
add_to_list-append [] d i = refl
add_to_list-append (n ∷ ns) d i = ap (◌∷◌ n) (add_to_list-append ns d i)

pub count_items-add_to_list :
    (ns : NodeList) (d i : ℕ) → count_items (add_to_list ns d i) ≡ suc (count_items ns)
count_items-add_to_list [] d i = refl
count_items-add_to_list (n ∷ ns) d i = ap suc (count_items-add_to_list ns d i)

-- No two nodes share an identifier, and no two an item.
abbrev pub Apart : ListNode → NodeList → Type 0
Apart n [] = Unit {0}
Apart n (m ∷ ms) = (n.id ≢ m.id) × (n.item ≢ m.item) × Apart n ms

abbrev pub Distinct : NodeList → Type 0
Distinct [] = Unit {0}
Distinct (n ∷ ns) = Apart n ns × Distinct ns

abbrev pub IdsBelow : ℕ → NodeList → Type 0
IdsBelow b [] = Unit {0}
IdsBelow b (n ∷ ns) = (n.id < b) × IdsBelow b ns

find_by_id-Apart : (n : ListNode) (ns : NodeList) → Apart n ns → find_by_id ns n.id ≡ none
find_by_id-Apart n [] a = refl
find_by_id-Apart n (m ∷ ms) (i, d, a) = ground (arith, find_by_id-Apart n ms a)

find_by_id-item :
    (n : ListNode) (ns : NodeList) (i : ℕ) {l : ListNode}
    → Apart n ns
    → find_by_id ns i ≡ some l
    → (n.item ≢ l.item) × (n.id ≢ i)
find_by_id-item n [] i a e = absurd (cc)
find_by_id-item n (m ∷ ms) i {l} (x, d, a) e = elim (Bool-cases (m.id == i)) [
  | inl hit ↦ (ground arith, ground arith)
  | inr miss ↦ find_by_id-item n ms i {l = l} a (ground arith)
]

-- Removing the node that `find_by_id` finds takes that identifier away, and no other.
pub find_by_id-remove_self :
    (ns : NodeList) (i : ℕ) {l : ListNode}
    → Distinct ns
    → find_by_id ns i ≡ some l
    → find_by_id (remove_from_list ns l.item).0 i ≡ none
find_by_id-remove_self [] i d e = refl
find_by_id-remove_self (n ∷ ns) i {l} (a, d) e = elim (Bool-cases (n.id == i)) [
  | inl hit ↦ ground (arith, find_by_id-Apart n ns a)
  | inr miss ↦
      let found : find_by_id ns i ≡ some l = ground arith in
      ground (arith, find_by_id-remove_self ns i d found, find_by_id-item n ns i a found)
]

pub find_by_id-remove_ne :
    (ns : NodeList) (i j : ℕ) {l : ListNode}
    → Distinct ns
    → find_by_id ns i ≡ some l
    → j ≢ i
    → find_by_id (remove_from_list ns l.item).0 j ≡ find_by_id ns j
find_by_id-remove_ne [] i j d e ne = refl
find_by_id-remove_ne (n ∷ ns) i j {l} (a, d) e ne = elim (Bool-cases (n.id == i)) [
  | inl hit ↦ ground arith
  | inr miss ↦
      let found : find_by_id ns i ≡ some l = ground arith in
      ground (arith, find_by_id-remove_ne ns i j d found, find_by_id-item n ns i a found)
]

pub find_by_id-IdsBelow : (b i : ℕ) (ns : NodeList) → IdsBelow b ns → b ≤ i → find_by_id ns i ≡ none
find_by_id-IdsBelow b i [] h le = refl
find_by_id-IdsBelow b i (n ∷ ns) (lt, h) le = ground (arith, find_by_id-IdsBelow b i ns h)

pub find_by_id-add_to_list :
    (ns : NodeList) (d i j : ℕ)
    → find_by_id ns i ≡ none
    → find_by_id (add_to_list ns d i) j ≡ (if i == j then some (node i d) else find_by_id ns j)
find_by_id-add_to_list [] d i j e = refl
find_by_id-add_to_list (n ∷ ns) d i j e = ground (arith, find_by_id-add_to_list ns d i j)

pub IdsBelow-suc : (b : ℕ) (ns : NodeList) → IdsBelow b ns → IdsBelow (b + 1) ns
IdsBelow-suc b [] h = tt
IdsBelow-suc b (n ∷ ns) (lt, h) = (omega arith, IdsBelow-suc b ns h)

pub IdsBelow-add_to_list :
    (b : ℕ) (ns : NodeList) (d i : ℕ) → IdsBelow b ns → i < b → IdsBelow b (add_to_list ns d i)
IdsBelow-add_to_list b [] d i h lt = (lt, tt)
IdsBelow-add_to_list b (n ∷ ns) d i (x, h) lt = (x, IdsBelow-add_to_list b ns d i h lt)

pub Apart-mid :
    (d n : ListNode) (ds ns : NodeList)
    → Apart d (ds ++ n ∷ ns)
    → (d.id ≢ n.id) × (d.item ≢ n.item) × Apart d (ds ++ ns)
Apart-mid d n [] ns (i, e, a) = (i, e, a)
Apart-mid d n (x ∷ ds) ns (i, e, a) = let (j, f, b) = Apart-mid d n ds ns a in (j, f, (i, e, b))

-- Of distinct nodes exactly the one asked for is removed.
pub remove_from_list-mid :
    (n : ListNode) (ds ns : NodeList)
    → Distinct (ds ++ n ∷ ns)
    → (remove_from_list (ds ++ n ∷ ns) n.item).0 ≡ ds ++ ns
remove_from_list-mid n [] ns d = ground arith
remove_from_list-mid n (x ∷ ds) ns (a, d) =
    ground (arith, remove_from_list-mid n ds ns d, Apart-mid x n ds ns a)

pub Distinct-mid : (n : ListNode) (ds ns : NodeList) → Distinct (ds ++ n ∷ ns) → Distinct (ds ++ ns)
Distinct-mid n [] ns (a, d) = d
Distinct-mid n (x ∷ ds) ns (a, d) = ((Apart-mid x n ds ns a).2, Distinct-mid n ds ns d)

pub Distinct-head : (n : ListNode) (ds ns : NodeList) → Distinct (ds ++ n ∷ ns) → Apart n ns
Distinct-head n [] ns (a, d) = a
Distinct-head n (x ∷ ds) ns (a, d) = Distinct-head n ds ns d
