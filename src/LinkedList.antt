-- ===== src/LinkedList.antt =====
-- src/linked_list.c seen as the sequence of its nodes, first to last.
pub mod Laws
pub mod Ids
pub mod Heap
use yalnix_operating_system.Base.{
  ℕ, ◌+◌, suc, Option, none, some, List, [], ◌∷◌, ◌++◌, ◌==◌, if◌then◌else◌, error, success, null,
}

-- `ListNode`: its links are its place in the sequence.
pub record ListNode : Type 0 where
  pub id : ℕ
  pub item : ℕ

abbrev pub node : ℕ → ℕ → ListNode
node i d = record { id = i; item = d }

abbrev pub NodeList : Type 0
NodeList = List ListNode

abbrev pub init_list : NodeList
init_list = []

abbrev pub add_to_list : NodeList → ℕ → ℕ → NodeList
add_to_list [] d i = node i d ∷ []
add_to_list (n ∷ ns) d i = n ∷ add_to_list ns d i

-- The list without the first node that holds `d`, and the return code.
abbrev pub remove_from_list : NodeList → ℕ → NodeList × ℕ
remove_from_list [] d = ([], error)
remove_from_list (n ∷ ns) d =
    if n.item == d
    then (ns, success)
    else (n ∷ (remove_from_list ns d).0, (remove_from_list ns d).1)

-- The first node and the rest of the list.
abbrev pub pop : NodeList → Option ListNode × NodeList
pop [] = (none, [])
pop (n ∷ ns) = (some n, ns)

abbrev pub count_items : NodeList → ℕ
count_items [] = 0
count_items (n ∷ ns) = suc (count_items ns)

abbrev pub find_by_id : NodeList → ℕ → Option ListNode
find_by_id [] i = none
find_by_id (n ∷ ns) i = if n.id == i then some n else find_by_id ns i

abbrev pub find_by_data : NodeList → ℕ → Option ListNode
find_by_data [] d = none
find_by_data (n ∷ ns) d = if n.item == d then some n else find_by_data ns d

-- `node ? node->data : NULL`.
abbrev pub data_of : Option ListNode → ℕ
data_of none = null
data_of (some n) = n.item
