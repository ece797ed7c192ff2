-- ===== src/System/Sync.antt =====
-- The synchronisation calls leave the tables alone, but for those that make or free an object.
use yalnix_operating_system.Base.{ℕ, List, [], ◌∷◌, arith}
use yalnix_operating_system.LinkedList.{NodeList}
use yalnix_operating_system.Kernel.State.{Rest}
use yalnix_operating_system.System.Tables.{
  no_null_item-add_to_list, Keeps, switch_to_next_available_proc-Keeps,
}
use yalnix_operating_system.Sync.Locks.{acquire, release}
use yalnix_operating_system.Sync.Cvars.{
  wake_all, cvar_signal, cvar_broadcast, cvar_wait, cvar_wait_resumed,
}
use yalnix_operating_system.Sync.Pipes.{pipe_read, pipe_read_resumed, pipe_write}

module _ (at : ℕ) where
  pub acquire-Keeps : (rest : Rest) (id : ℕ) → Keeps at (acquire rest id)
  unfolding acquire
  acquire-Keeps rest id k a k' h =
      grind (arith, switch_to_next_available_proc-Keeps at, no_null_item-add_to_list)

  pub release-Keeps : (id : ℕ) → Keeps at (release id)
  unfolding release
  release-Keeps id k a k' h = ground arith

  pub cvar_signal-Keeps : (id : ℕ) → Keeps at (cvar_signal id)
  unfolding cvar_signal
  cvar_signal-Keeps id k a k' h = ground arith

  pub wake_all-Keeps : (ptr : ℕ) (ws : NodeList) → Keeps at (wake_all ptr ws)
  unfolding wake_all
  wake_all-Keeps ptr [] k a k' h = ground arith
  wake_all-Keeps ptr (w ∷ ws) k a k' h = grind (arith, wake_all-Keeps ptr ws)

  pub cvar_broadcast-Keeps : (id : ℕ) → Keeps at (cvar_broadcast id)
  unfolding cvar_broadcast
  cvar_broadcast-Keeps id k a k' h = grind (arith, wake_all-Keeps)

  pub cvar_wait-Keeps : (cvar_id lock_id : ℕ) → Keeps at (cvar_wait cvar_id lock_id)
  unfolding cvar_wait
  cvar_wait-Keeps cvar_id lock_id k a k' h =
      grind (arith, (switch_to_next_available_proc-Keeps at), release-Keeps)

  pub cvar_wait_resumed-Keeps : (lock : ℕ) → Keeps at (cvar_wait_resumed lock)
  unfolding cvar_wait_resumed
  cvar_wait_resumed-Keeps lock k a k' h = grind (arith, acquire-Keeps)

  pub pipe_read_resumed-Keeps : (ptr buf len : ℕ) → Keeps at (pipe_read_resumed ptr buf len)
  unfolding pipe_read_resumed
  pipe_read_resumed-Keeps ptr buf len k a k' h = ground arith

  pub pipe_read-Keeps : (id buf len : ℕ) → Keeps at (pipe_read id buf len)
  unfolding pipe_read
  pipe_read-Keeps id buf len k a k' h =
      grind (arith, (switch_to_next_available_proc-Keeps at), pipe_read_resumed-Keeps)

  pub pipe_write-Keeps : (id : ℕ) (memory : List ℕ) (len : ℕ) → Keeps at (pipe_write id memory len)
  unfolding pipe_write
  pipe_write-Keeps id memory len k a k' h = ground arith
