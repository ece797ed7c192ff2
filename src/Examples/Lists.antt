-- ===== src/Examples/Lists.antt =====
-- Three linked nodes, at 1000, 2000 and 3000.
use yalnix_operating_system.Base.{
  ℕ, ◌≡◌, arith, refl, none, some, List, [], ◌∷◌, update, Store, success,
}
use yalnix_operating_system.LinkedList.{node}
use yalnix_operating_system.LinkedList.Heap.{
  Cell, Linked, linked_add_to_list, linked_pop, linked_remove_from_list,
}
use yalnix_operating_system.LinkedList.Heap.Chain.{Placed}
use yalnix_operating_system.LinkedList.Heap.Refines.{Represents, Becomes, linked_list_lem}

abbrev linked : (id data_ptr next prev : ℕ) → Cell
linked i d q p = record { id = i; data_ptr = d; next = q; prev = p }

abbrev cells : Store Cell
cells =
    update
      (update (update (λ _. none) 1000 (some (linked 1 100 2000 0))) 2000
        (some (linked 2 200 3000 1000)))
      3000 (some (linked 3 300 0 2000))

abbrev list : Linked
list = record { cells = cells; first = 1000 }

abbrev placed : (addr id item : ℕ) → Placed
placed a i d = record { addr = a; node = node i d }

abbrev three : List Placed
three = placed 1000 1 100 ∷ placed 2000 2 200 ∷ placed 3000 3 300 ∷ []

list-Represents : Represents list three
list-Represents = record {
  first = refl;
  chain = (
    ground arith,
    (ground arith, (ground arith, tt)),
    refl,
    (ground arith, (ground arith, tt), refl, (ground arith, tt, refl, tt)),
  );
}

linked_list_lem_example :
    ((l' : Linked) × (linked_add_to_list 4 4000 list 200 9 ≡ some l')
      × Becomes l' (node 1 100 ∷ node 2 200 ∷ node 3 300 ∷ node 9 200 ∷ []))
    × ((l' : Linked) × (linked_remove_from_list 4 list 200 ≡ some (l', success))
        × Becomes l' (node 1 100 ∷ node 3 300 ∷ []))
    × ((l' : Linked) × (linked_pop list ≡ some (1000, l'))
        × Becomes l' (node 2 200 ∷ node 3 300 ∷ []))
linked_list_lem_example =
    linked_list_lem 4 4000 200 9 list three list-Represents
      (ground arith, (ground arith, (ground arith, tt))) (ground arith) (omega arith)
