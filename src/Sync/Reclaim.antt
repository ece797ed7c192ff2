-- ===== src/Sync/Reclaim.antt =====
-- `Yalnix_Reclaim`.
pub mod InUse
use yalnix_operating_system.Base.{
  ℕ, not, none, some, if◌then◌else◌, ◌==◌, ltb, update, error, success,
}
use yalnix_operating_system.LinkedList.{ListNode, count_items, find_by_id, remove_from_list}
use yalnix_operating_system.Kernel.State.{Kernel}
use yalnix_operating_system.Kernel.Run.{
  M, ◌>>=◌, ◌>>◌, pure, get, put, load_lock, load_cvar, load_pipe,
}

reclaim_lock : ListNode → M ℕ
reclaim_lock node = do
  lock ← load_lock node.item
  if ltb 0 (count_items lock.waiters)
      then pure error
      else if not (lock.is_claimed == 0)
      then pure error
      else do
        k ← get
        put (record k {
          locks = (remove_from_list k.locks node.item).0;
          lock_at = update k.lock_at node.item none;
        })
        pure success

reclaim_cvar : ListNode → M ℕ
reclaim_cvar node = do
  cvar ← load_cvar node.item
  if ltb 0 (count_items cvar.waiters) then pure error else do
    k ← get
    put (record k {
      cvars = (remove_from_list k.cvars node.item).0;
      cvar_at = update k.cvar_at node.item none;
    })
    pure success

reclaim_pipe : ListNode → M ℕ
reclaim_pipe node = do
  pipe ← load_pipe node.item
  if ltb 0 (count_items pipe.waiters) then pure error else do
    k ← get
    put (record k {
      pipes = (remove_from_list k.pipes node.item).0;
      pipe_at = update k.pipe_at node.item none;
    })
    pure success

-- An identifier that names nothing is reclaimed with success.
unfoldable pub reclaim : ℕ → M ℕ
unfolding reclaim_lock reclaim_cvar reclaim_pipe
reclaim id = do
  k ← get
  elim (find_by_id k.locks id) [
    | some node ↦ reclaim_lock node
    | none ↦ elim (find_by_id k.cvars id) [
      | some node ↦ reclaim_cvar node
      | none ↦ elim (find_by_id k.pipes id) [ some node ↦ reclaim_pipe node | none ↦ pure success ]
    ]
  ]
