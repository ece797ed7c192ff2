-- ===== src/Process/Clock.antt =====
-- `HANDLE_TRAP_CLOCK` of src/traps.c.
pub mod Visit
pub mod Sweep
pub mod Turn
use yalnix_operating_system.Base.{ℕ, true, none, [], ◌∷◌, if◌then◌else◌, ◌==◌, ltb}
use yalnix_operating_system.LinkedList.{NodeList, add_to_list, remove_from_list, count_items}
use yalnix_operating_system.Kernel.State.{Kernel, trap_frame, after_clock}
use yalnix_operating_system.Kernel.Run.{
  M, Outcome, returns, switched, ◌>>=◌, ◌>>◌, pure, get, put, load_proc, make_ready,
}
use yalnix_operating_system.Kernel.Switch.{switch_to_next_available_proc}
use yalnix_operating_system.Process.Blocks.{check_block, unblocked}

-- One process of the blocked queue: it moves to the ready queue once nothing blocks it.
unfoldable pub visit : ℕ → M (Unit {0})
visit p = do
  verdict ← check_block p
  if verdict == unblocked
      then (do
        k ← get
        put (record k { blocked_procs = (remove_from_list k.blocked_procs p).0 })
        c ← load_proc p
        make_ready p c.proc_id)
      else pure tt

-- The walk over the blocked queue. The iterator has moved on before a node is removed, so the walk
-- is over the nodes that stood there at its start; the last one is treated after the loop.
unfoldable pub sweep : NodeList → M (Unit {0})
sweep [] = pure tt
sweep (n ∷ ns) = do visit n.item; sweep ns

unfoldable pub handle_trap_clock : M Outcome
handle_trap_clock = do
  k ← get
  if ltb 0 (count_items k.blocked_procs) then sweep k.blocked_procs else pure tt
  k' ← get
  if ltb 0 (count_items k'.ready_procs)
      then (do switch_to_next_available_proc trap_frame after_clock true; pure switched)
      else pure (returns none)
