-- ===== src/Sync/Cvars.antt =====
-- `Yalnix_CvarInit`, `Yalnix_CvarSignal`, `Yalnix_CvarBroadcast` and `Yalnix_CvarWait`.
pub mod Wakes
use yalnix_operating_system.Base.{
  ℕ, false, Option, none, some, [], ◌∷◌, if◌then◌else◌, ◌==◌, update, null, error, success,
  add_word,
}
use yalnix_operating_system.LinkedList.{NodeList, init_list, add_to_list, pop, find_by_id}
use yalnix_operating_system.Kernel.State.{
  Kernel, Cvar, Rest, pcb_uc, after_cvar_wait, after_cvar_acquire,
}
use yalnix_operating_system.Kernel.Run.{
  M, Outcome, returns, switched, ◌>>=◌, ◌>>◌, pure, get, put, crash, load_proc, load_cvar,
  load_lock, store_cvar, store_int, make_ready,
}
use yalnix_operating_system.Kernel.Switch.{switch_to_next_available_proc}
use yalnix_operating_system.Sync.Locks.{acquire, release}

unfoldable pub cvar_init : (fresh cvar_idp : ℕ) → M ℕ
cvar_init fresh cvar_idp = if fresh == null then crash else do
  k ← get
  let cvar : Cvar = record { id = k.next_resource_id; waiters = init_list }
  put (record k {
    cvar_at = update k.cvar_at fresh (some cvar);
    next_resource_id = add_word k.next_resource_id 1;
  })
  store_int cvar_idp cvar.id
  k' ← get
  put (record k' { cvars = add_to_list k'.cvars fresh cvar.id })
  pure success

unfoldable pub cvar_signal : ℕ → M ℕ
cvar_signal cvar_id = do
  k ← get
  elim (find_by_id k.cvars cvar_id) [
    | none ↦ pure error
    | some cvar_node ↦ do
      cvar ← load_cvar cvar_node.item
      let (waiter_node, others) = pop cvar.waiters
      store_cvar cvar_node.item (record cvar { waiters = others })
      elim waiter_node [
        | none ↦ pure success
        | some w ↦ do waiter ← load_proc w.item; make_ready w.item waiter.proc_id; pure success
      ]
  ]

-- The loop of the broadcast, over what is left on the list of waiters.
unfoldable pub wake_all : ℕ → NodeList → M (Unit {0})
wake_all cvar_ptr [] = pure tt
wake_all cvar_ptr (w ∷ others) = do
  cvar ← load_cvar cvar_ptr
  store_cvar cvar_ptr (record cvar { waiters = others })
  waiter ← load_proc w.item
  make_ready w.item waiter.proc_id
  wake_all cvar_ptr others

unfoldable pub cvar_broadcast : ℕ → M ℕ
unfolding wake_all
cvar_broadcast cvar_id = do
  k ← get
  elim (find_by_id k.cvars cvar_id) [
    | none ↦ pure error
    | some cvar_node ↦ do
      cvar ← load_cvar cvar_node.item
      wake_all cvar_node.item cvar.waiters
      pure success
  ]

-- Up to the switch. On the errors the C code returns `ERROR`.
unfoldable pub cvar_wait : (cvar_id lock_id : ℕ) → M Outcome
cvar_wait cvar_id lock_id = do
  k ← get
  elim (find_by_id k.cvars cvar_id) [
    | none ↦ pure (returns (some error))
    | some cvar_node ↦ elim (find_by_id k.locks lock_id) [
      | none ↦ pure (returns (some error))
      | some lock_node ↦ do
        lock ← load_lock lock_node.item
        rc ← release lock.id
        cvar ← load_cvar cvar_node.item
        curr ← load_proc k.curr_proc
        store_cvar cvar_node.item
            (record cvar { waiters = add_to_list cvar.waiters k.curr_proc curr.proc_id })
        switch_to_next_available_proc (pcb_uc k.curr_proc) (after_cvar_wait lock_node.item) false
        pure switched
    ]
  ]

-- After the signal: the lock is taken again, and the function ends with no `return`.
unfoldable pub cvar_wait_resumed : ℕ → M Outcome
cvar_wait_resumed lock_ptr = do
  lock ← load_lock lock_ptr
  answer ← acquire after_cvar_acquire lock.id
  elim answer [ switched ↦ pure switched | returns r ↦ pure (returns none) ]
