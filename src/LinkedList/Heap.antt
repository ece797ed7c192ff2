-- ===== src/LinkedList/Heap.antt =====
-- src/linked_list.c with its nodes in memory, linked by `next` and `prev`. A result `none` is a fault, or a
-- loop that has used up its fuel.
pub mod Chain
pub mod Refines
use yalnix_operating_system.Base.{
  ℕ, zero, suc, ◌+◌, Bool, Option, none, some, ◌==◌, if◌then◌else◌, error, success, null, Store,
  update,
}

pub record Cell : Type 0 where
  pub id : ℕ
  pub data_ptr : ℕ
  pub next : ℕ
  pub prev : ℕ

-- A `List`, and the memory that its nodes are in.
pub record Linked : Type 0 where
  pub cells : Store Cell
  pub first : ℕ

-- `p->f = v`, for a change `f` of the node.
abbrev pub change : Store Cell → ℕ → (Cell → Cell) → Option (Store Cell)
change c p f = elim (c p) [ none ↦ none | some v ↦ some (update c p (some (f v))) ]

-- `while (node->next) node = node->next`
unfoldable pub last_node : (fuel : ℕ) → Store Cell → ℕ → Option ℕ
last_node zero c p = none
last_node (suc n) c p = elim (c p) [
  | none ↦ none
  | some v ↦ if v.next == null then some p else last_node n c v.next
]

-- The loops that look for a node: NULL if there is none.
unfoldable pub find_node : (fuel : ℕ) → (Cell → Bool) → Store Cell → ℕ → Option ℕ
find_node zero test c p = none
find_node (suc n) test c p =
    if p == null
    then some null
    else elim (c p) [ none ↦ none | some v ↦ if test v then some p else find_node n test c v.next ]

abbrev pub has_data : ℕ → Cell → Bool
has_data d v = v.data_ptr == d

-- `node->next = new; new->prev = node`
unfoldable pub append_node : Store Cell → (node new : ℕ) → Option (Store Cell)
append_node c p new = elim (change c p (λ v. record v { next = new })) [
  | none ↦ none
  | some c₁ ↦ change c₁ new (λ v. record v { prev = p })
]

-- `fresh` is what `malloc` returns.
unfoldable pub linked_add_to_list : (fuel fresh : ℕ) → Linked → (d i : ℕ) → Option Linked
linked_add_to_list fuel fresh l d i =
    let c =
      update l.cells fresh (some (record { id = i; data_ptr = d; next = null; prev = null })) in
    if l.first == null
    then some (record { cells = c; first = fresh })
    else elim (last_node fuel c l.first) [
      | none ↦ none
      | some p ↦ elim (append_node c p fresh) [
        | none ↦ none
        | some c' ↦ some (record { cells = c'; first = l.first })
      ]
    ]

-- `if (q) q->prev = p`
unfoldable pub set_prev : Store Cell → (q p : ℕ) → Option (Store Cell)
set_prev c q p = if q == null then some c else change c q (λ v. record v { prev = p })

-- The node and the list without it; the node is the caller's.
unfoldable pub linked_pop : Linked → Option (ℕ × Linked)
linked_pop l = if l.first == null then some (null, l) else elim (l.cells l.first) [
  | none ↦ none
  | some v ↦ elim (set_prev l.cells v.next null) [
    | none ↦ none
    | some c ↦ some (l.first, record { cells = c; first = v.next })
  ]
]

-- A node taken out of the list, by what stands before it.
unfoldable pub unlink : Linked → (node : ℕ) → Cell → Option Linked
unlink l p v =
    if v.prev == null
    then elim (set_prev l.cells v.next v.prev) [
      | none ↦ none
      | some c ↦ some (record { cells = c; first = v.next })
    ]
    else elim (change l.cells v.prev (λ w. record w { next = v.next })) [
      | none ↦ none
      | some c ↦ elim (set_prev c v.next v.prev) [
        | none ↦ none
        | some c' ↦ some (record { cells = c'; first = l.first })
      ]
    ]

-- `free(node)`
abbrev pub freed_node : ℕ → Linked → Linked
freed_node p l = record l { cells = update l.cells p none }

unfoldable pub linked_remove_from_list : (fuel : ℕ) → Linked → (d : ℕ) → Option (Linked × ℕ)
linked_remove_from_list fuel l d = elim (find_node fuel (has_data d) l.cells l.first) [
  | none ↦ none
  | some p ↦ if p == null then some (l, error) else elim (l.cells p) [
    | none ↦ none
    | some v ↦ elim (unlink l p v) [ none ↦ none | some l' ↦ some (freed_node p l', success) ]
  ]
]
