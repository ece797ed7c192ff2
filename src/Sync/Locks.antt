-- ===== src/Sync/Locks.antt =====
-- `Yalnix_LockInit`, `Yalnix_Acquire` and `Yalnix_Release`.
pub mod Queue
pub mod Handoff
use yalnix_operating_system.Base.{
  ℕ, ◌+◌, Bool, false, not, ◌||◌, Option, none, some, if◌then◌else◌, ◌==◌, update, null, error,
  success, add_word,
}
use yalnix_operating_system.LinkedList.{data_of, init_list, add_to_list, pop, find_by_id}
use yalnix_operating_system.Kernel.State.{Kernel, Lock, Rest, pcb_uc}
use yalnix_operating_system.Kernel.Run.{
  M, Outcome, returns, switched, ◌>>=◌, ◌>>◌, pure, get, put, crash, load_proc, load_lock,
  store_lock, store_int, make_ready,
}
use yalnix_operating_system.Kernel.Switch.{switch_to_next_available_proc}

-- `fresh` is what `malloc` returns for the new lock.
unfoldable pub lock_init : (fresh lock_idp : ℕ) → M ℕ
lock_init fresh lock_idp = if fresh == null then crash else do
  k ← get
  let lock : Lock = record {
    id = k.next_resource_id;
    is_claimed = 0;
    owner_id = error;
    waiters = init_list;
  }
  put (record k {
    lock_at = update k.lock_at fresh (some lock);
    next_resource_id = add_word k.next_resource_id 1;
  })
  store_int lock_idp lock.id
  k' ← get
  put (record k' { locks = add_to_list k'.locks fresh lock.id })
  pure success

-- `rest` is what the caller has left to do once the lock is handed over.
unfoldable pub acquire : Rest → ℕ → M Outcome
acquire rest lock_id = do
  k ← get
  elim (find_by_id k.locks lock_id) [
    | none ↦ pure (returns (some error))
    | some lock_node ↦ do
      lock ← load_lock lock_node.item
      curr ← load_proc k.curr_proc
      if lock.owner_id == curr.proc_id
          then pure (returns (some success))
          else if lock.is_claimed == 0
          then (do
            store_lock lock_node.item (record lock { is_claimed = 1; owner_id = curr.proc_id })
            pure (returns (some success)))
          else (do
            store_lock lock_node.item
                (record lock { waiters = add_to_list lock.waiters k.curr_proc curr.proc_id })
            switch_to_next_available_proc (pcb_uc k.curr_proc) rest false
            pure switched)
  ]

unfoldable pub release : ℕ → M ℕ
release lock_id = do
  k ← get
  elim (find_by_id k.locks lock_id) [
    | none ↦ pure error
    | some lock_node ↦ do
      lock ← load_lock lock_node.item
      curr ← load_proc k.curr_proc
      if lock.is_claimed == 0 || not (lock.owner_id == curr.proc_id) then pure error else do
        let (waiter_node, others) = pop lock.waiters
        let waiter = data_of waiter_node
        if waiter == null
            then (do
              store_lock lock_node.item
                  (record lock { waiters = others; is_claimed = 0; owner_id = error })
              pure success)
            else (do
              w ← load_proc waiter
              store_lock lock_node.item (record lock { waiters = others; owner_id = w.proc_id })
              make_ready waiter w.proc_id
              pure success)
  ]
