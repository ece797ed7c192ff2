-- ===== src/LinkedList/Ids.antt =====
-- The identifiers in the lists of src/linked_list.c: used once, and used in one of three lists only.
use yalnix_operating_system.Base.{ℕ, ◌≢◌, sym, [], ◌∷◌, arith}
use yalnix_operating_system.LinkedList.{NodeList, add_to_list, remove_from_list}
use yalnix_operating_system.LinkedList.Laws.{IdsBelow}

abbrev pub NotIn : ℕ → NodeList → Type 0
NotIn i [] = Unit {0}
NotIn i (n ∷ ns) = (i ≢ n.id) × NotIn i ns

-- Each identifier stands at one node.
abbrev pub Once : NodeList → Type 0
Once [] = Unit {0}
Once (n ∷ ns) = NotIn n.id ns × Once ns

-- No identifier of the first list is one of the second.
abbrev pub NoneIn : NodeList → NodeList → Type 0
NoneIn [] ms = Unit {0}
NoneIn (n ∷ ns) ms = NotIn n.id ms × NoneIn ns ms

pub NotIn-IdsBelow : (b : ℕ) (ns : NodeList) → IdsBelow b ns → NotIn b ns
NotIn-IdsBelow b [] h = tt
NotIn-IdsBelow b (n ∷ ns) (lt, h) = (ground arith, NotIn-IdsBelow b ns h)

NotIn-add_to_list :
    (i : ℕ) (ns : NodeList) (d j : ℕ) → NotIn i ns → i ≢ j → NotIn i (add_to_list ns d j)
NotIn-add_to_list i [] d j h ne = (ne, tt)
NotIn-add_to_list i (n ∷ ns) d j (x, h) ne = (x, NotIn-add_to_list i ns d j h ne)

NotIn-remove_from_list :
    (i : ℕ) (ns : NodeList) (d : ℕ) → NotIn i ns → NotIn i (remove_from_list ns d).0
NotIn-remove_from_list i [] d h = tt
NotIn-remove_from_list i (n ∷ ns) d (x, h) = ground (arith, NotIn-remove_from_list i ns d h)

pub Once-add_to_list : (ns : NodeList) (d j : ℕ) → NotIn j ns → Once ns → Once (add_to_list ns d j)
Once-add_to_list [] d j h once = (tt, tt)
Once-add_to_list (n ∷ ns) d j (x, h) (y, once) =
    (NotIn-add_to_list n.id ns d j y (λ e. x (sym e)), Once-add_to_list ns d j h once)

pub Once-remove_from_list : (ns : NodeList) (d : ℕ) → Once ns → Once (remove_from_list ns d).0
Once-remove_from_list [] d h = tt
Once-remove_from_list (n ∷ ns) d (x, h) =
    ground (arith, NotIn-remove_from_list n.id ns d x, Once-remove_from_list ns d h)

pub NoneIn-add_left :
    (ns ms : NodeList) (d j : ℕ) → NotIn j ms → NoneIn ns ms → NoneIn (add_to_list ns d j) ms
NoneIn-add_left [] ms d j h none = (h, tt)
NoneIn-add_left (n ∷ ns) ms d j h (x, none) = (x, NoneIn-add_left ns ms d j h none)

pub NoneIn-add_right :
    (ns ms : NodeList) (d j : ℕ) → NotIn j ns → NoneIn ns ms → NoneIn ns (add_to_list ms d j)
NoneIn-add_right [] ms d j h none = tt
NoneIn-add_right (n ∷ ns) ms d j (x, h) (y, none) =
    (NotIn-add_to_list n.id ms d j y (λ e. x (sym e)), NoneIn-add_right ns ms d j h none)

pub NoneIn-remove_left :
    (ns ms : NodeList) (d : ℕ) → NoneIn ns ms → NoneIn (remove_from_list ns d).0 ms
NoneIn-remove_left [] ms d h = tt
NoneIn-remove_left (n ∷ ns) ms d (x, h) = ground (arith, NoneIn-remove_left ns ms d h)

pub NoneIn-remove_right :
    (ns ms : NodeList) (d : ℕ) → NoneIn ns ms → NoneIn ns (remove_from_list ms d).0
NoneIn-remove_right [] ms d h = tt
NoneIn-remove_right (n ∷ ns) ms d (x, h) =
    (NotIn-remove_from_list n.id ms d x, NoneIn-remove_right ns ms d h)

-- No identifier stands at two nodes of the three lists.
pub record Separate (xs ys zs : NodeList) : Type 0 where
  pub first : Once xs
  pub second : Once ys
  pub third : Once zs
  pub first_second : NoneIn xs ys
  pub first_third : NoneIn xs zs
  pub second_third : NoneIn ys zs

module _ (xs ys zs : NodeList) (is : Separate xs ys zs) where
  module _ (d b : ℕ) (x : IdsBelow b xs) (y : IdsBelow b ys) (z : IdsBelow b zs) where
    pub Separate-add_first : Separate (add_to_list xs d b) ys zs
    Separate-add_first = record {
      first = Once-add_to_list xs d b (NotIn-IdsBelow b xs x) is.first;
      second = is.second;
      third = is.third;
      first_second = NoneIn-add_left xs ys d b (NotIn-IdsBelow b ys y) is.first_second;
      first_third = NoneIn-add_left xs zs d b (NotIn-IdsBelow b zs z) is.first_third;
      second_third = is.second_third;
    }

    pub Separate-add_second : Separate xs (add_to_list ys d b) zs
    Separate-add_second = record {
      first = is.first;
      second = Once-add_to_list ys d b (NotIn-IdsBelow b ys y) is.second;
      third = is.third;
      first_second = NoneIn-add_right xs ys d b (NotIn-IdsBelow b xs x) is.first_second;
      first_third = is.first_third;
      second_third = NoneIn-add_left ys zs d b (NotIn-IdsBelow b zs z) is.second_third;
    }

    pub Separate-add_third : Separate xs ys (add_to_list zs d b)
    Separate-add_third = record {
      first = is.first;
      second = is.second;
      third = Once-add_to_list zs d b (NotIn-IdsBelow b zs z) is.third;
      first_second = is.first_second;
      first_third = NoneIn-add_right xs zs d b (NotIn-IdsBelow b xs x) is.first_third;
      second_third = NoneIn-add_right ys zs d b (NotIn-IdsBelow b ys y) is.second_third;
    }

  pub Separate-remove_first : (d : ℕ) → Separate (remove_from_list xs d).0 ys zs
  Separate-remove_first d = record {
    first = Once-remove_from_list xs d is.first;
    second = is.second;
    third = is.third;
    first_second = NoneIn-remove_left xs ys d is.first_second;
    first_third = NoneIn-remove_left xs zs d is.first_third;
    second_third = is.second_third;
  }

  pub Separate-remove_second : (d : ℕ) → Separate xs (remove_from_list ys d).0 zs
  Separate-remove_second d = record {
    first = is.first;
    second = Once-remove_from_list ys d is.second;
    third = is.third;
    first_second = NoneIn-remove_right xs ys d is.first_second;
    first_third = is.first_third;
    second_third = NoneIn-remove_left ys zs d is.second_third;
  }

  pub Separate-remove_third : (d : ℕ) → Separate xs ys (remove_from_list zs d).0
  Separate-remove_third d = record {
    first = is.first;
    second = is.second;
    third = Once-remove_from_list zs d is.third;
    first_second = is.first_second;
    first_third = NoneIn-remove_right xs zs d is.first_third;
    second_third = NoneIn-remove_right ys zs d is.second_third;
  }
