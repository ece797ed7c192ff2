-- ===== src/Process/Blocks.antt =====
-- `check_block` of src/blocks.c, and `Yalnix_Delay`, which sets a block up.
pub mod Ticks
use yalnix_operating_system.Base.{
  ℕ, ◌-◌, Bool, true, false, not, Option, none, some, if◌then◌else◌, ◌==◌, ltb, error, success,
  is_negative, sub_word,
}
use yalnix_operating_system.LinkedList.{NodeList, add_to_list, count_items}
use yalnix_operating_system.Kernel.State.{Kernel, Block, zero_block, trap_frame, after_delay}
use yalnix_operating_system.Kernel.Run.{
  M, Outcome, returns, switched, ◌>>=◌, ◌>>◌, pure, get, put, stop, load_proc, store_proc,
}
use yalnix_operating_system.Kernel.Switch.{switch_to_next_available_proc}

abbrev pub block_inactive : ℕ
block_inactive = 0

abbrev pub block_active : ℕ
block_active = 1

abbrev pub no_block : ℕ
no_block = 0

abbrev pub delay_block : ℕ
delay_block = 1

abbrev pub wait_block : ℕ
wait_block = 2

abbrev pub unblocked : ℕ
unblocked = 0

abbrev pub blocked : ℕ
blocked = 1

-- `list != NULL && count_items(list) > 0`.
abbrev pub has_items : Option NodeList → Bool
has_items none = false
has_items (some ns) = ltb 0 (count_items ns)

abbrev clear_block : ℕ → M ℕ
clear_block p = do c ← load_proc p; store_proc p (record c { block = zero_block }); pure unblocked

-- `check_block(proc->block)`. The pipe and terminal blocks are as little supported as any other.
unfoldable pub check_block : ℕ → M ℕ
check_block p = do
  c ← load_proc p
  if c.block.active == block_inactive
      then pure unblocked
      else if not (c.block.active == block_active)
      then pure error
      else if c.block.type == no_block
      then clear_block p
      else if c.block.type == delay_block
      then (if ltb 1 c.block.delay_count
          then (do
            let b = c.block
            store_proc p (record c { block = record b { delay_count = sub_word b.delay_count 1 } })
            pure blocked)
          else clear_block p)
      else if c.block.type == wait_block
      then (do
        blocked_proc ← load_proc c.block.obj_ptr
        if has_items blocked_proc.exited_children then clear_block p else pure blocked)
      else pure error

unfoldable pub delay : (clock_ticks : ℕ) → M Outcome
delay clock_ticks =
    if is_negative clock_ticks
    then pure (returns (some error))
    else if clock_ticks == 0
    then pure (returns (some success))
    else do
      k ← get
      c ← load_proc k.curr_proc
      let b = c.block
      store_proc k.curr_proc (record c {
        block = record b { active = block_active; type = delay_block; delay_count = clock_ticks };
      })
      k' ← get
      put (record k' { blocked_procs = add_to_list k'.blocked_procs k'.curr_proc c.proc_id })
      if count_items k'.ready_procs == 0
          then stop error
          else do switch_to_next_available_proc trap_frame after_delay false; pure switched
