-- ===== src/Process/Wait.antt =====
-- `Yalnix_Wait`.
use yalnix_operating_system.Base.{
  ℕ, ◌&&◌, Bool, true, false, null, Option, none, some, if◌then◌else◌, ◌==◌, update, error,
}
use yalnix_operating_system.LinkedList.{
  ListNode, NodeList, add_to_list, remove_from_list, pop, count_items, find_by_id,
}
use yalnix_operating_system.Kernel.State.{trap_frame, after_wait}
use yalnix_operating_system.Kernel.Run.{
  M, Outcome, returns, switched, ◌>>=◌, ◌>>◌, pure, get, put, stop, from, load_proc, store_proc,
  store_int,
}
use yalnix_operating_system.Kernel.Switch.{switch_to_next_available_proc}
use yalnix_operating_system.Process.Blocks.{block_active, wait_block, has_items}

-- `count_items(list) <= 0` where a list that is NULL counts for nothing.
abbrev pub childless : Option NodeList → Bool
childless none = true
childless (some ns) = count_items ns == 0

-- `found` is the entry of `dead_procs` under the identifier `pid` of the child.
unfoldable pub take_status : (status_ptr pid : ℕ) (found : Option ListNode) → M ℕ
take_status status_ptr pid none = pure error
take_status status_ptr pid (some found_item) = if found_item.item == null then pure error else do
  k ← get
  status ← from (k.status_at found_item.item)
  store_int status_ptr status
  k' ← get
  put (record k' {
    dead_procs = (remove_from_list k'.dead_procs found_item.item).0;
    status_at = update k'.status_at found_item.item none;
  })
  pure pid

-- Take the first exited child off the list, and its status out of the list of the dead.
unfoldable pub collect : (parent status_ptr : ℕ) → M ℕ
collect parent status_ptr = do
  c ← load_proc parent
  exited ← from c.exited_children
  let (node, others) = pop exited
  ret_child ← from node
  store_proc parent (record c { exited_children = some others })
  k ← get
  take_status status_ptr ret_child.id (find_by_id k.dead_procs ret_child.id)

unfoldable pub wait : (status_ptr : ℕ) → M Outcome
wait status_ptr = do
  k ← get
  let parent = k.curr_proc
  c ← load_proc parent
  elim c.children [
    | none ↦ pure (returns (some error))
    | some children ↦
        if count_items children == 0 && childless c.exited_children
        then pure (returns (some error))
        else if has_items c.exited_children
        then (do rc ← collect parent status_ptr; pure (returns (some rc)))
        else (do
          store_proc parent (record c {
            block = record {
              active = block_active;
              type = wait_block;
              delay_count = 0;
              obj_ptr = parent;
            };
          })
          k' ← get
          put (record k' { blocked_procs = add_to_list k'.blocked_procs parent c.proc_id })
          if count_items k'.ready_procs == 0 then stop error else do
            switch_to_next_available_proc trap_frame (after_wait parent status_ptr) false
            pure switched)
  ]

-- The rest of the call, once the clock trap has found an exited child.
unfoldable pub wait_resumed : (parent status_ptr : ℕ) → M ℕ
wait_resumed parent status_ptr = do
  c ← load_proc parent
  exited ← from c.exited_children
  if count_items exited == 0 then pure error else collect parent status_ptr
