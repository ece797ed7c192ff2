-- ===== src/LinkedList/Heap/Refines.antt =====
-- The linked nodes refine the sequence of nodes.
use yalnix_operating_system.Base.{
  ℕ, zero, suc, ◌<◌, ◌≡◌, ◌≢◌, refl, ap, ◌∙◌, false, Bool-cases, inl, inr, none, some, List, [],
  ◌∷◌, ◌++◌, length, ◌==◌, if◌then◌else◌, arith, null, subst, Store, update, error, success,
}
use yalnix_operating_system.LinkedList.{NodeList, node, add_to_list, remove_from_list, pop}
use yalnix_operating_system.LinkedList.Heap.{
  Cell, Linked, last_node, find_node, has_data, append_node, unlink, freed_node, linked_add_to_list,
  linked_pop, linked_remove_from_list,
}
use yalnix_operating_system.LinkedList.Heap.Chain.{
  Placed, cell, first_of, last_of, NotAt, NotAt-last_of, Chain, Chain-update, last_node_lem,
  append-Chain, relinked, set_prev_lem, relinked-Chain, unlink-Chain,
}

-- The list in memory is the sequence.
pub record Represents (l : Linked) (xs : List Placed) : Type 0 where
  pub first : l.first ≡ first_of xs
  pub chain : Chain l.cells null xs

abbrev pub nodes : List Placed → NodeList
nodes [] = []
nodes (x ∷ xs) = x.node ∷ nodes xs

nodes-add_to_list :
    (xs : List Placed) (a d i : ℕ)
    → nodes (xs ++ (record { addr = a; node = node i d } ∷ [])) ≡ add_to_list (nodes xs) d i
nodes-add_to_list [] a d i = refl
nodes-add_to_list (x ∷ xs) a d i = ap (◌∷◌ x.node) (nodes-add_to_list xs a d i)

append_node_lem :
    (c : Store Cell) (p a : ℕ) (v f : Cell)
    → c p ≡ some v
    → c a ≡ some f
    → a ≢ p
    → append_node c p a
      ≡ some (update (update c p (some (record v { next = a }))) a (some (record f { prev = p })))
unfolding append_node
append_node_lem c p a v f at_p at_a apart = ground arith

add_lem :
    (fuel a d i : ℕ) (l : Linked) (xs : List Placed)
    → Represents l xs
    → NotAt a xs
    → a ≢ null
    → length xs < fuel
    → (l' : Linked) × (linked_add_to_list fuel a l d i ≡ some l')
      × Represents l' (xs ++ (record { addr = a; node = node i d } ∷ []))
unfolding linked_add_to_list
add_lem fuel a d i l [] is free new lt =
    let c : Store Cell =
      update l.cells a (some (record { id = i; data_ptr = d; next = null; prev = null })) in
    (
      record { cells = c; first = a },
      ground (arith, is.first),
      record { first = refl; chain = (new, tt, ground arith, tt) },
    )
add_lem fuel a d i l (x ∷ xs) is free new lt =
    let fresh : Cell = record { id = i; data_ptr = d; next = null; prev = null } in
    let c : Store Cell = update l.cells a (some fresh) in
    let p : ℕ = last_of x xs in
    let chain : Chain c null (x ∷ xs) =
      Chain-update l.cells a (some fresh) null (x ∷ xs) free is.chain in
    let (v, there, done) = append-Chain c a null (node i d) x xs chain free new in
    let last : last_node fuel c l.first ≡ some p =
      rw is.first (last_node_lem fuel c null x xs chain (omega (arith, lt))) in
    let apart : a ≢ p = NotAt-last_of a x xs free in
    let linked = append_node_lem c p a v fresh there (ground arith) apart in
    let some_first : (l.first == null) ≡ false = ground (arith, is.first, chain.0) in
    (
      record {
        cells =
            update (update c p (some (record v { next = a }))) a (some (record fresh { prev = p }));
        first = l.first;
      },
      rw some_first (rw last (rw linked refl)),
      record { first = is.first; chain = done },
    )

abbrev find_at : ℕ → List Placed → ℕ
find_at d [] = null
find_at d (x ∷ xs) = if x.node.item == d then x.addr else find_at d xs

find_node_lem :
    (fuel d : ℕ) (c : Store Cell) (prev : ℕ) (xs : List Placed)
    → Chain c prev xs
    → length xs < fuel
    → find_node fuel (has_data d) c (first_of xs) ≡ some (find_at d xs)
unfolding find_node
find_node_lem zero d c prev xs chain lt = absurd (omega arith)
find_node_lem (suc n) d c prev [] chain lt = ground arith
find_node_lem (suc n) d c prev (x ∷ xs) (nn, na, is, chain) lt =
    let rest = find_node_lem n d c x.addr xs chain (omega arith) in ground (arith, rest)

-- Where a node with the item `d` stands, and what the sequence is without it.
data Found (d : ℕ) (xs : List Placed) : Type 0 where
  missing : find_at d xs ≡ null → remove_from_list (nodes xs) d ≡ (nodes xs, error) → Found d xs
  found :
      (ys : List Placed) (x : Placed) (zs : List Placed)
      → xs ≡ ys ++ (x ∷ zs)
      → find_at d xs ≡ x.addr
      → remove_from_list (nodes xs) d ≡ (nodes (ys ++ zs), success)
      → Found d xs

find : (d : ℕ) (xs : List Placed) → Found d xs
find d [] = missing refl refl
find d (x ∷ xs) = elim (Bool-cases (x.node.item == d)) [
  | inl hit ↦ found [] x xs refl (ground arith) (ground arith)
  | inr miss ↦ elim (find d xs) [
    | missing e f ↦ missing (ground arith) (ground arith)
    | found ys y zs e f g ↦ found (x ∷ ys) y zs (ap (◌∷◌ x) e) (ground arith) (ground arith)
  ]
]

unlink_first :
    (l : Linked) (x : Placed) (zs : List Placed)
    → Represents l (x ∷ zs)
    → (unlink l x.addr (cell x.node (first_of zs) null)
        ≡ some (record { cells = relinked l.cells null zs; first = first_of zs }))
      × Represents
          (freed_node x.addr (record { cells = relinked l.cells null zs; first = first_of zs }))
          zs
unfolding unlink
unlink_first l x zs is =
    let (nn, na, at_x, chain) = is.chain in
    (
      rw (set_prev_lem l.cells x.addr null zs chain) refl,
      record {
        first = refl;
        chain =
            Chain-update (relinked l.cells null zs) x.addr none null zs na
              (relinked-Chain l.cells x.addr null zs chain);
      },
    )

unlink_later :
    (l : Linked) (y x : Placed) (ys zs : List Placed)
    → Represents l (y ∷ (ys ++ (x ∷ zs)))
    → (l' : Linked) × (unlink l x.addr (cell x.node (first_of zs) (last_of y ys)) ≡ some l')
      × Represents (freed_node x.addr l') (y ∷ (ys ++ zs))
unfolding unlink
unlink_later l y x ys zs is =
    let (v, there, at_x, np, nz, tail, rest) = unlink-Chain l.cells null y x ys zs is.chain in
    let p : ℕ = last_of y ys in
    let w : Cell = record v { next = first_of zs } in
    let c₁ : Store Cell = update l.cells p (some w) in
    let some_prev : (p == null) ≡ false = ground arith in
    (
      record { cells = relinked c₁ p zs; first = l.first },
      rw some_prev (
          rw there (
            rw (set_prev_lem c₁ x.addr p zs (Chain-update l.cells p (some w) x.addr zs nz tail))
              refl)),
      record { first = is.first; chain = rest },
    )

at_mid :
    (c : Store Cell) (prev : ℕ) (y x : Placed) (ys zs : List Placed)
    → Chain c prev (y ∷ (ys ++ (x ∷ zs)))
    → (x.addr ≢ null) × (c x.addr ≡ some (cell x.node (first_of zs) (last_of y ys)))
at_mid c prev y x [] zs (nn, na, is, (nx, nz, at_x, chain)) = (nx, at_x)
at_mid c prev y x (w ∷ ys) zs (nn, na, is, chain) = at_mid c y.addr w x ys zs chain

remove_lem :
    (fuel d : ℕ) (l : Linked) (xs ys : List Placed) (x : Placed) (zs : List Placed)
    → Represents l (ys ++ (x ∷ zs))
    → find_node fuel (has_data d) l.cells l.first ≡ some x.addr
    → (l' : Linked) × (linked_remove_from_list fuel l d ≡ some (l', success))
      × Represents l' (ys ++ zs)
unfolding linked_remove_from_list
remove_lem fuel d l xs [] x zs is hit =
    let (nn, na, at_x, chain) = is.chain in
    let (run, left) = unlink_first l x zs is in
    let some_node : (x.addr == null) ≡ false = ground arith in
    (
      freed_node x.addr (record { cells = relinked l.cells null zs; first = first_of zs }),
      rw (hit, linked_remove_from_list) (rw some_node (rw at_x (rw run refl))),
      left,
    )
remove_lem fuel d l xs (y ∷ ys) x zs is hit =
    let (nn, at_x) = at_mid l.cells null y x ys zs is.chain in
    let (l', run, left) = unlink_later l y x ys zs is in
    let some_node : (x.addr == null) ≡ false = ground arith in
    (
      freed_node x.addr l',
      rw (hit, linked_remove_from_list) (rw some_node (rw at_x (rw run refl))),
      left,
    )

pop_lem :
    (l : Linked) (xs : List Placed)
    → Represents l xs
    → (l' : Linked) × (xs' : List Placed) × (linked_pop l ≡ some (first_of xs, l'))
      × Represents l' xs'
      × (nodes xs' ≡ (pop (nodes xs)).1)
unfolding linked_pop
pop_lem l [] is = (l, [], ground (arith, is.first), is, refl)
pop_lem l (x ∷ zs) is =
    let (nn, na, at_x, chain) = is.chain in
    let some_node : (x.addr == null) ≡ false = ground arith in
    (
      record { cells = relinked l.cells null zs; first = first_of zs },
      zs,
      rw is.first (
          rw some_node
            (rw at_x (rw (set_prev_lem l.cells x.addr null zs chain) (ground (arith, is.first))))),
      record { first = refl; chain = relinked-Chain l.cells x.addr null zs chain },
      refl,
    )

remove_missing :
    (fuel d : ℕ) (l : Linked)
    → find_node fuel (has_data d) l.cells l.first ≡ some null
    → linked_remove_from_list fuel l d ≡ some (l, error)
unfolding linked_remove_from_list
remove_missing fuel d l e = ground arith

-- `l'` is `l` after an operation that makes `ns` of the sequence.
abbrev pub Becomes : Linked → NodeList → Type 0
Becomes l' ns = (ys : List Placed) × Represents l' ys × (nodes ys ≡ ns)

remove_any :
    (fuel d : ℕ) (l : Linked) (xs : List Placed)
    → Represents l xs
    → length xs < fuel
    → (l' : Linked) × (linked_remove_from_list fuel l d
        ≡ some (l', (remove_from_list (nodes xs) d).1))
      × Becomes l' (remove_from_list (nodes xs) d).0
remove_any fuel d l xs is lt =
    let hit : find_node fuel (has_data d) l.cells l.first ≡ some (find_at d xs) =
      rw is.first (find_node_lem fuel d l.cells null xs is.chain lt) in
    elim (find d xs) [
      | missing e f ↦ (l, rw f (remove_missing fuel d l (hit ∙ ap some e)), (xs, is, rw f refl))
      | found ys x zs e f g ↦
          let (l', run, left) =
            remove_lem fuel d l xs ys x zs (subst (Represents l) e is) (hit ∙ ap some f) in
          (l', rw g run, (ys ++ zs, left, rw g refl))
    ]

-- On a well-linked list in memory that stands for a sequence of nodes, with a new node at an
-- address that is not NULL and not in the list, and with fuel for more rounds than the list has
-- nodes, the operations on the links do what those on the sequence do: `add_to_list` links the new
-- node in as the last, `remove_from_list` takes out the first node with the data, with the same
-- return code, and `pop` gives the first node; the list is well-linked again.
pub linked_list_lem :
    (fuel a d i : ℕ) (l : Linked) (xs : List Placed)
    → Represents l xs
    → NotAt a xs
    → a ≢ null
    → length xs < fuel
    → ((l' : Linked) × (linked_add_to_list fuel a l d i ≡ some l')
        × Becomes l' (add_to_list (nodes xs) d i))
      × ((l' : Linked) × (linked_remove_from_list fuel l d
            ≡ some (l', (remove_from_list (nodes xs) d).1))
          × Becomes l' (remove_from_list (nodes xs) d).0)
      × ((l' : Linked) × (linked_pop l ≡ some (first_of xs, l')) × Becomes l' (pop (nodes xs)).1)
linked_list_lem fuel a d i l xs is free new lt =
    let (l₁, added, is₁) = add_lem fuel a d i l xs is free new lt in
    let (l₂, xs₂, popped, is₂, rest) = pop_lem l xs is in
    (
      (
        l₁,
        added,
        (xs ++ (record { addr = a; node = node i d } ∷ []), is₁, nodes-add_to_list xs a d i),
      ),
      remove_any fuel d l xs is lt,
      (l₂, popped, (xs₂, is₂, rest)),
    )
