-- ===== src/Sync/Reclaim/InUse.antt =====
-- What `Yalnix_Reclaim` refuses, and what it takes away.
use yalnix_operating_system.Base.{
  ℕ, ◌≡◌, ◌≢◌, ◌⊎◌, inl, inr, arith, some, none, [], error, success, update,
}
use yalnix_operating_system.LinkedList.{ListNode, find_by_id, remove_from_list}
use yalnix_operating_system.LinkedList.Laws.{Distinct, find_by_id-remove_self, find_by_id-remove_ne}
use yalnix_operating_system.Kernel.State.{Kernel, Lock, Cvar, Pipe}
use yalnix_operating_system.Kernel.Run.{ok}
use yalnix_operating_system.Sync.Reclaim.{reclaim}

-- The identifier names something that a process holds or waits for.
pub data InUse (k : Kernel) (id : ℕ) : Type 0 where
  lock_held :
      (l : ListNode) (lock : Lock)
      → find_by_id k.locks id ≡ some l
      → k.lock_at l.item ≡ some lock
      → (lock.is_claimed ≢ 0) ⊎ (lock.waiters ≢ [])
      → InUse k id
  cvar_awaited :
      (l : ListNode) (cvar : Cvar)
      → find_by_id k.locks id ≡ none
      → find_by_id k.cvars id ≡ some l
      → k.cvar_at l.item ≡ some cvar
      → cvar.waiters ≢ []
      → InUse k id
  pipe_awaited :
      (l : ListNode) (pipe : Pipe)
      → find_by_id k.locks id ≡ none
      → find_by_id k.cvars id ≡ none
      → find_by_id k.pipes id ≡ some l
      → k.pipe_at l.item ≡ some pipe
      → pipe.waiters ≢ []
      → InUse k id

-- A lock that is held or awaited, a condition variable that is awaited or a pipe that is awaited
-- is not reclaimed: the call returns -1 and nothing changes.
pub reclaim-InUse : (k : Kernel) (id : ℕ) → InUse k id → reclaim id k ≡ ok error k
unfolding reclaim
reclaim-InUse k id (lock_held l lock f s (inl h)) = ground arith
reclaim-InUse k id (lock_held l lock f s (inr h)) = ground arith
reclaim-InUse k id (cvar_awaited l cvar f g s h) = ground arith
reclaim-InUse k id (pipe_awaited l pipe f g e s h) = ground arith

-- If list entries are distinct, reclaiming a lock that is free and not awaited returns 0, frees
-- the lock, and takes its identifier, and no other, off the list.
pub reclaim_free_lock :
    (k : Kernel) (id : ℕ) (l : ListNode) (lock : Lock)
    → find_by_id k.locks id ≡ some l
    → k.lock_at l.item ≡ some lock
    → lock.is_claimed ≡ 0
    → lock.waiters ≡ []
    → Distinct k.locks
    → (k' : Kernel) × (reclaim id k ≡ ok success k')
      × (k'.lock_at l.item ≡ none)
      × (find_by_id k'.locks id ≡ none)
      × ((j : ℕ) → j ≢ id → find_by_id k'.locks j ≡ find_by_id k.locks j)
unfolding reclaim
reclaim_free_lock k id l lock f s h w d = (
  record k { locks = (remove_from_list k.locks l.item).0; lock_at = update k.lock_at l.item none },
  ground arith,
  ground arith,
  find_by_id-remove_self k.locks id d f,
  λ j ne. find_by_id-remove_ne k.locks id j d f ne,
)
