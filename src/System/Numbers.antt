-- ===== src/System/Numbers.antt =====
-- The identifiers of locks, condition variables and pipes: those in the tables stay below the next one, which
-- grows by one at most, and each names one object.
use yalnix_operating_system.Base.{
  ℕ, suc, ◌+◌, ◌≤◌, ◌<◌, ◌≡◌, ◌^◌, sym, subst, [], ◌∷◌, arith, add_word,
}
use yalnix_operating_system.LinkedList.{NodeList, add_to_list, remove_from_list}
use yalnix_operating_system.LinkedList.Laws.{IdsBelow, IdsBelow-suc, IdsBelow-add_to_list}
use yalnix_operating_system.LinkedList.Ids.{
  Separate, Separate-add_first, Separate-add_second, Separate-add_third, Separate-remove_first,
  Separate-remove_second, Separate-remove_third,
}
use yalnix_operating_system.Kernel.State.{Kernel}
use yalnix_operating_system.Kernel.Run.{M, ok}
use yalnix_operating_system.Sync.Locks.{lock_init}
use yalnix_operating_system.Sync.Cvars.{cvar_init}
use yalnix_operating_system.Sync.Pipes.{pipe_init}
use yalnix_operating_system.Sync.Reclaim.{reclaim}
use yalnix_operating_system.System.Tables.{SameTables}

-- Every identifier is below the next one, which is at most `b`, and names one object.
pub record Numbered (b : ℕ) (k : Kernel) : Type 0 where
  pub next : k.next_resource_id ≤ b
  pub locks : IdsBelow k.next_resource_id k.locks
  pub cvars : IdsBelow k.next_resource_id k.cvars
  pub pipes : IdsBelow k.next_resource_id k.pipes
  pub apart : Separate k.locks k.cvars k.pipes

pub Numbered-kept :
    {b : ℕ} {k k' : Kernel}
    → k'.locks ≡ k.locks
    → k'.cvars ≡ k.cvars
    → k'.pipes ≡ k.pipes
    → k'.next_resource_id ≡ k.next_resource_id
    → Numbered b k
    → Numbered b k'
Numbered-kept el ec ep ei n = ground arith

pub Numbered-Same : {at b : ℕ} {k k' : Kernel} → SameTables at k k' → Numbered b k → Numbered b k'
Numbered-Same s n = Numbered-kept s.locks s.cvars s.pipes s.next_id n

pub Numbered-suc : {b : ℕ} {k : Kernel} → Numbered b k → Numbered (suc b) k
Numbered-suc n = record {
  next = omega (arith, n.next);
  locks = n.locks;
  cvars = n.cvars;
  pipes = n.pipes;
  apart = n.apart;
}

-- A command that makes at most one object.
abbrev Numbers : {A : Type 0} → M A → Type 0
Numbers {A} m =
    (b : ℕ) (k : Kernel) (a : A) (k' : Kernel)
    → suc b < 2 ^ 32
    → m k ≡ ok a k'
    → Numbered b k
    → Numbered (suc b) k'

-- The tables after an object has been added to one of them.
module _ (b : ℕ) (k : Kernel) (small : suc b < 2 ^ 32) (is : Numbered b k) where
  grown : add_word k.next_resource_id 1 ≡ k.next_resource_id + 1
  grown = omega (arith, is.next)

  old :
      (ns : NodeList) → IdsBelow k.next_resource_id ns → IdsBelow (add_word k.next_resource_id 1) ns
  old ns h = subst (λ i. IdsBelow i ns) (sym grown) (IdsBelow-suc k.next_resource_id ns h)

  new :
      (ns : NodeList) (p : ℕ)
      → IdsBelow k.next_resource_id ns
      → IdsBelow (add_word k.next_resource_id 1) (add_to_list ns p k.next_resource_id)
  new ns p h =
      IdsBelow-add_to_list (add_word k.next_resource_id 1) ns p k.next_resource_id (old ns h)
        (omega (arith, grown))

pub lock_init-Numbered : (fresh ptr : ℕ) → Numbers (lock_init fresh ptr)
unfolding lock_init
lock_init-Numbered fresh ptr b k a k' small h n = record {
  next = ground (arith, grown b k small n, n.next);
  locks = ground (arith, new b k small n k.locks fresh n.locks);
  cvars = ground (arith, old b k small n k.cvars n.cvars);
  pipes = ground (arith, old b k small n k.pipes n.pipes);
  apart = ground (
    arith,
    n.apart,
    Separate-add_first k.locks k.cvars k.pipes n.apart fresh k.next_resource_id n.locks n.cvars
        n.pipes,
  );
}

pub cvar_init-Numbered : (fresh ptr : ℕ) → Numbers (cvar_init fresh ptr)
unfolding cvar_init
cvar_init-Numbered fresh ptr b k a k' small h n = record {
  next = ground (arith, grown b k small n, n.next);
  locks = ground (arith, old b k small n k.locks n.locks);
  cvars = ground (arith, new b k small n k.cvars fresh n.cvars);
  pipes = ground (arith, old b k small n k.pipes n.pipes);
  apart = ground (
    arith,
    n.apart,
    Separate-add_second k.locks k.cvars k.pipes n.apart fresh k.next_resource_id n.locks n.cvars
        n.pipes,
  );
}

pub pipe_init-Numbered : (fresh fresh_buf ptr : ℕ) → Numbers (pipe_init fresh fresh_buf ptr)
unfolding pipe_init
pipe_init-Numbered fresh fresh_buf ptr b k a k' small h n = record {
  next = ground (arith, grown b k small n, n.next);
  locks = ground (arith, old b k small n k.locks n.locks, n.locks);
  cvars = ground (arith, old b k small n k.cvars n.cvars, n.cvars);
  pipes = ground (arith, new b k small n k.pipes fresh n.pipes, n.pipes);
  apart = ground (
    arith,
    n.apart,
    Separate-add_third k.locks k.cvars k.pipes n.apart fresh k.next_resource_id n.locks n.cvars
        n.pipes,
  );
}

remove_from_list-IdsBelow :
    (b : ℕ) (ns : NodeList) (d : ℕ) → IdsBelow b ns → IdsBelow b (remove_from_list ns d).0
remove_from_list-IdsBelow b [] d h = tt
remove_from_list-IdsBelow b (n ∷ ns) d (lt, h) = ground (arith, remove_from_list-IdsBelow b ns d h)

pub reclaim-Numbered : (id : ℕ) → Numbers (reclaim id)
unfolding reclaim
reclaim-Numbered id b k a k' small h n = record {
  next = ground (arith, n.next);
  locks = grind (arith, n.locks, remove_from_list-IdsBelow);
  cvars = grind (arith, n.cvars, remove_from_list-IdsBelow);
  pipes = grind (arith, n.pipes, remove_from_list-IdsBelow);
  apart =
      grind (arith, n.apart, Separate-remove_first, Separate-remove_second, Separate-remove_third);
}
