-- ===== src/LinkedList/Heap/Chain.antt =====
-- A sequence of nodes, and where in memory they are.
use yalnix_operating_system.Base.{
  ℕ, zero, suc, ◌<◌, ◌≡◌, ◌≢◌, refl, sym, Option, none, some, List, [], ◌∷◌, ◌++◌, length, arith,
  null, Store, update,
}
use yalnix_operating_system.LinkedList.{ListNode}
use yalnix_operating_system.LinkedList.Heap.{Cell, last_node, set_prev}

-- A node and its address.
pub record Placed : Type 0 where
  pub addr : ℕ
  pub node : ListNode

abbrev pub cell : ListNode → (next prev : ℕ) → Cell
cell n next prev = record { id = n.id; data_ptr = n.item; next = next; prev = prev }

abbrev pub first_of : List Placed → ℕ
first_of [] = null
first_of (x ∷ xs) = x.addr

abbrev pub last_of : Placed → List Placed → ℕ
last_of x [] = x.addr
last_of x (y ∷ ys) = last_of y ys

abbrev pub NotAt : ℕ → List Placed → Type 0
NotAt a [] = Unit {0}
NotAt a (x ∷ xs) = (a ≢ x.addr) × NotAt a xs

-- The nodes stand at their addresses, each with the one before and the one behind it.
abbrev pub Chain : Store Cell → (prev : ℕ) → List Placed → Type 0
Chain c prev [] = Unit {0}
Chain c prev (x ∷ xs) =
    (x.addr ≢ null)
    × NotAt x.addr xs
    × (c x.addr ≡ some (cell x.node (first_of xs) prev))
    × Chain c x.addr xs

pub Chain-update :
    (c : Store Cell) (a : ℕ) (v : Option Cell) (prev : ℕ) (xs : List Placed)
    → NotAt a xs
    → Chain c prev xs
    → Chain (update c a v) prev xs
Chain-update c a v prev [] h chain = tt
Chain-update c a v prev (x ∷ xs) (ne, h) (nn, na, is, chain) =
    (nn, na, ground arith, Chain-update c a v x.addr xs h chain)

pub NotAt-last_of : (a : ℕ) (y : Placed) (ys : List Placed) → NotAt a (y ∷ ys) → a ≢ last_of y ys
NotAt-last_of a y [] (ne, h) = ne
NotAt-last_of a y (z ∷ zs) (ne, h) = NotAt-last_of a z zs h

NotAt-append : (a : ℕ) (xs ys : List Placed) → NotAt a xs → NotAt a ys → NotAt a (xs ++ ys)
NotAt-append a [] ys h k = k
NotAt-append a (x ∷ xs) ys (ne, h) k = (ne, NotAt-append a xs ys h k)

pub last_node_lem :
    (fuel : ℕ) (c : Store Cell) (prev : ℕ) (x : Placed) (xs : List Placed)
    → Chain c prev (x ∷ xs)
    → length xs < fuel
    → last_node fuel c x.addr ≡ some (last_of x xs)
unfolding last_node
last_node_lem zero c prev x xs chain lt = absurd (omega arith)
last_node_lem (suc n) c prev x [] (nn, na, is, chain) lt = ground arith
last_node_lem (suc n) c prev x (y ∷ ys) (nn, na, is, chain) lt =
    ground (arith, last_node_lem n c x.addr y ys chain (omega arith), chain.0)

-- The node at `a`, not in the chain, becomes its last.
abbrev with_last : Store Cell → (p a : ℕ) → (v n : Cell) → Store Cell
with_last c p a v n = update (update c p (some v)) a (some n)

pub append-Chain :
    (c : Store Cell) (a prev : ℕ) (n : ListNode) (x : Placed) (xs : List Placed)
    → Chain c prev (x ∷ xs)
    → NotAt a (x ∷ xs)
    → a ≢ null
    → (v : Cell) × (c (last_of x xs) ≡ some v)
      × Chain
          (with_last c (last_of x xs) a (record v { next = a }) (cell n null (last_of x xs)))
          prev
          (x ∷ (xs ++ (record { addr = a; node = n } ∷ [])))
append-Chain c a prev n x [] (nn, na, is, chain) (ne, h) new = (
  cell x.node null prev,
  is,
  (nn, (λ e. ne (sym e), tt), ground arith, (new, tt, ground arith, tt)),
)
append-Chain c a prev n x (y ∷ ys) (nn, na, is, chain) (ne, h) new =
    let (v, there, rest) = append-Chain c a x.addr n y ys chain h new in
    let apart : x.addr ≢ last_of y ys = NotAt-last_of x.addr y ys na in
    (
      v,
      there,
      (
        nn,
        NotAt-append x.addr (y ∷ ys) (record { addr = a; node = n } ∷ []) na (λ e. ne (sym e), tt),
        ground (arith, apart),
        rest,
      ),
    )

pub NotAt-mid :
    (a : ℕ) (x : Placed) (ys zs : List Placed)
    → NotAt a (ys ++ (x ∷ zs))
    → (a ≢ x.addr) × NotAt a ys × NotAt a zs × NotAt a (ys ++ zs)
NotAt-mid a x [] zs (ne, h) = (ne, tt, h, h)
NotAt-mid a x (y ∷ ys) zs (ne, h) =
    let (e, f, g, i) = NotAt-mid a x ys zs h in (e, (ne, f), g, (ne, i))

-- `c` once the first node of `zs` has `p` before it.
abbrev pub relinked : Store Cell → (p : ℕ) → List Placed → Store Cell
relinked c p [] = c
relinked c p (z ∷ zs) = update c z.addr (some (cell z.node (first_of zs) p))

pub set_prev_lem :
    (c : Store Cell) (q p : ℕ) (zs : List Placed)
    → Chain c q zs
    → set_prev c (first_of zs) p ≡ some (relinked c p zs)
unfolding set_prev
set_prev_lem c q p [] chain = ground arith
set_prev_lem c q p (z ∷ zs) (nn, na, is, chain) = ground arith

pub relinked-Chain :
    (c : Store Cell) (q p : ℕ) (zs : List Placed) → Chain c q zs → Chain (relinked c p zs) p zs
relinked-Chain c q p [] chain = tt
relinked-Chain c q p (z ∷ zs) (nn, na, is, chain) = (
  nn,
  na,
  ground arith,
  Chain-update c z.addr (some (cell z.node (first_of zs) p)) z.addr zs na chain,
)

relinked_other :
    (c : Store Cell) (p b : ℕ) (zs : List Placed) → NotAt b zs → relinked c p zs b ≡ c b
relinked_other c p b [] h = refl
relinked_other c p b (z ∷ zs) (ne, h) = ground arith

-- The store without the node at `a`, behind the node `v` at `p` and in front of `zs`.
abbrev pub without : Store Cell → (p : ℕ) → Cell → (a : ℕ) → List Placed → Store Cell
without c p v a zs =
    update (relinked (update c p (some (record v { next = first_of zs }))) p zs) a none

pub unlink-Chain :
    (c : Store Cell) (prev : ℕ) (y x : Placed) (ys zs : List Placed)
    → Chain c prev (y ∷ (ys ++ (x ∷ zs)))
    → (v : Cell) × (c (last_of y ys) ≡ some v)
      × (c x.addr ≡ some (cell x.node (first_of zs) (last_of y ys)))
      × (last_of y ys ≢ null)
      × NotAt (last_of y ys) zs
      × Chain c x.addr zs
      × Chain (without c (last_of y ys) v x.addr zs) prev (y ∷ (ys ++ zs))
unlink-Chain c prev y x [] zs (nn, (ne, na), is, (nx, nz, at_x, chain)) =
    let v : Cell = cell y.node x.addr prev in
    let c₁ : Store Cell = update c y.addr (some (record v { next = first_of zs })) in
    let chain₁ : Chain c₁ x.addr zs =
      Chain-update c y.addr (some (record v { next = first_of zs })) x.addr zs na chain in
    (
      v,
      is,
      at_x,
      nn,
      na,
      chain,
      (
        nn,
        na,
        ground (arith, relinked_other c₁ y.addr y.addr zs na),
        Chain-update (relinked c₁ y.addr zs) x.addr none y.addr zs nz
            (relinked-Chain c₁ x.addr y.addr zs chain₁),
      ),
    )
unlink-Chain c prev y x (w ∷ ys) zs (nn, na, is, chain) =
    let (v, there, at_x, np, nz, tail, rest) = unlink-Chain c y.addr w x ys zs chain in
    let p : ℕ = last_of w ys in
    let (other, before, behind, all) = NotAt-mid y.addr x (w ∷ ys) zs na in
    let apart : y.addr ≢ p = NotAt-last_of y.addr w ys before in
    let c₁ : Store Cell = update c p (some (record v { next = first_of zs })) in
    (
      v,
      there,
      at_x,
      np,
      nz,
      tail,
      (nn, all, ground (arith, apart, other, relinked_other c₁ p y.addr zs behind), rest),
    )
