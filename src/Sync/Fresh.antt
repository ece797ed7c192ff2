-- ===== src/Sync/Fresh.antt =====
-- The identifiers that `Yalnix_LockInit`, `Yalnix_CvarInit` and `Yalnix_PipeInit` hand out.
use yalnix_operating_system.Base.{
  ℕ, ◌+◌, ◌<◌, ◌≡◌, ◌≢◌, ◌^◌, refl, sym, subst, arith, some, ◌∷◌, [], if◌then◌else◌, ◌==◌, null,
  success, error, update, add_word, replicate,
}
use yalnix_operating_system.LinkedList.{NodeList, node, find_by_id, add_to_list}
use yalnix_operating_system.LinkedList.Laws.{
  IdsBelow, find_by_id-IdsBelow, find_by_id-add_to_list, IdsBelow-suc, IdsBelow-add_to_list,
}
use yalnix_operating_system.Kernel.State.{Kernel, Pipe, int_stored}
use yalnix_operating_system.Kernel.Run.{ok}
use yalnix_operating_system.Sync.Locks.{lock_init}
use yalnix_operating_system.Sync.Cvars.{cvar_init}
use yalnix_operating_system.Sync.Pipes.{pipe_init, max_pipe_len}

-- Every identifier in use is below the next one.
pub record FreshIds (k : Kernel) : Type 0 where
  pub locks : IdsBelow k.next_resource_id k.locks
  pub cvars : IdsBelow k.next_resource_id k.cvars
  pub pipes : IdsBelow k.next_resource_id k.pipes
  pub room : k.next_resource_id + 1 < 2 ^ 32

-- The list `after` is `before` with one more node, under the new identifier.
abbrev pub Adds : Kernel → NodeList → NodeList → ℕ → Type 0
Adds k before after p =
    (j : ℕ)
    → find_by_id after j
      ≡ (if k.next_resource_id == j then some (node k.next_resource_id p) else find_by_id before j)

-- The identifiers in use stay below the next one, which has moved on; the caller is told.
pub record NewId (k k' : Kernel) (idp : ℕ) : Type 0 where
  pub next : k'.next_resource_id ≡ k.next_resource_id + 1
  pub locks : IdsBelow k'.next_resource_id k'.locks
  pub cvars : IdsBelow k'.next_resource_id k'.cvars
  pub pipes : IdsBelow k'.next_resource_id k'.pipes
  pub told : k'.log ≡ int_stored k.curr_proc idp k.next_resource_id ∷ k.log

module _ (k : Kernel) (is : FreshIds k) where
  abbrev next : ℕ
  next = add_word k.next_resource_id 1

  next_lem : next ≡ k.next_resource_id + 1
  next_lem = omega (arith, is.room)

  old : (ns : NodeList) → IdsBelow k.next_resource_id ns → IdsBelow next ns
  old ns h = subst (λ b. IdsBelow b ns) (sym next_lem) (IdsBelow-suc k.next_resource_id ns h)

  new :
      (ns : NodeList) (p : ℕ)
      → IdsBelow k.next_resource_id ns
      → IdsBelow next (add_to_list ns p k.next_resource_id)
  new ns p h =
      IdsBelow-add_to_list next ns p k.next_resource_id (old ns h) (omega (arith, next_lem))

  adds :
      (ns : NodeList) (p : ℕ)
      → IdsBelow k.next_resource_id ns
      → Adds k ns (add_to_list ns p k.next_resource_id) p
  adds ns p h j =
      find_by_id-add_to_list ns p k.next_resource_id j
        (find_by_id-IdsBelow k.next_resource_id k.next_resource_id ns h (omega arith))

module _ (k : Kernel) (fresh idp : ℕ) (is : FreshIds k) (not_null : fresh ≢ null) where
  -- If all identifiers of locks, condition variables and pipes are below the next one, which has
  -- room to grow, a new lock at an address that is not NULL is free, has an identifier that no
  -- lock had, and all identifiers are below the next one again; the caller is told the identifier.
  pub lock_init_lem :
      (k' : Kernel) × (lock_init fresh idp k ≡ ok success k')
      × NewId k k' idp
      × Adds k k.locks k'.locks fresh
      × (k'.lock_at fresh
          ≡ some
              (record { id = k.next_resource_id; is_claimed = 0; owner_id = error; waiters = [] }))
  unfolding lock_init
  lock_init_lem = (
    record k {
      lock_at = update k.lock_at fresh (
          some
            (record { id = k.next_resource_id; is_claimed = 0; owner_id = error; waiters = [] }));
      next_resource_id = next k is;
      log = int_stored k.curr_proc idp k.next_resource_id ∷ k.log;
      locks = add_to_list k.locks fresh k.next_resource_id;
    },
    ground arith,
    record {
      next = next_lem k is;
      locks = new k is k.locks fresh is.locks;
      cvars = old k is k.cvars is.cvars;
      pipes = old k is k.pipes is.pipes;
      told = refl;
    },
    adds k is k.locks fresh is.locks,
    ground arith,
  )

  -- So does a new condition variable, for which nobody waits.
  pub cvar_init_lem :
      (k' : Kernel) × (cvar_init fresh idp k ≡ ok success k')
      × NewId k k' idp
      × Adds k k.cvars k'.cvars fresh
      × (k'.cvar_at fresh ≡ some (record { id = k.next_resource_id; waiters = [] }))
  unfolding cvar_init
  cvar_init_lem = (
    record k {
      cvar_at = update k.cvar_at fresh (some (record { id = k.next_resource_id; waiters = [] }));
      next_resource_id = next k is;
      log = int_stored k.curr_proc idp k.next_resource_id ∷ k.log;
      cvars = add_to_list k.cvars fresh k.next_resource_id;
    },
    ground arith,
    record {
      next = next_lem k is;
      locks = old k is k.locks is.locks;
      cvars = new k is k.cvars fresh is.cvars;
      pipes = old k is k.pipes is.pipes;
      told = refl;
    },
    adds k is k.cvars fresh is.cvars,
    ground arith,
  )

  -- And a new pipe, which is empty.
  pub pipe_init_lem :
      (fresh_buf : ℕ)
      → fresh_buf ≢ null
      → (k' : Kernel) × (pipe_init fresh fresh_buf idp k ≡ ok success k')
        × NewId k k' idp
        × Adds k k.pipes k'.pipes fresh
        × (k'.pipe_at fresh
            ≡ some (record {
              id = k.next_resource_id;
              len = 0;
              buf = replicate max_pipe_len 0;
              waiters = [];
            }))
  unfolding pipe_init
  pipe_init_lem fresh_buf buf_not_null =
      let empty : Pipe = record {
        id = k.next_resource_id;
        len = 0;
        buf = replicate max_pipe_len 0;
        waiters = [];
      } in
      (
        record k {
          pipe_at = update k.pipe_at fresh (some empty);
          next_resource_id = next k is;
          log = int_stored k.curr_proc idp k.next_resource_id ∷ k.log;
          pipes = add_to_list k.pipes fresh k.next_resource_id;
        },
        ground arith,
        record {
          next = next_lem k is;
          locks = old k is k.locks is.locks;
          cvars = old k is k.cvars is.cvars;
          pipes = new k is k.pipes fresh is.pipes;
          told = refl;
        },
        adds k is k.pipes fresh is.pipes,
        ground arith,
      )
