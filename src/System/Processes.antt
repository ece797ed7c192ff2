-- ===== src/System/Processes.antt =====
-- The process calls, the clock, the terminals and the faults leave the tables of resources alone.
use yalnix_operating_system.Base.{
  ℕ, zero, suc, Bool, true, false, Option, none, some, [], ◌∷◌, arith, error, ltb, ◌==◌, ◌&&◌, ◌≡◌,
  if◌then◌else◌, null, success, update,
}
use yalnix_operating_system.LinkedList.{
  ListNode, NodeList, count_items, add_to_list, remove_from_list,
}
use yalnix_operating_system.Kernel.State.{Kernel, Pcb, trap_frame, after_wait, after_delay}
use yalnix_operating_system.Kernel.Run.{
  M, Outcome, returns, switched, ok, and_then-eq-ok, pure, get, put, stop, crash, from, load_proc,
  store_proc, ◌>>=◌, ◌>>◌,
}
use yalnix_operating_system.Kernel.Switch.{perform_context_switch, switch_to_next_available_proc}
use yalnix_operating_system.Memory.Frames.{free_frames}
use yalnix_operating_system.System.Tables.{
  SameTables, SameTables-trans, Keeps, bind-Keeps, pure-Keeps, get-Keeps, from-Keeps,
  load_proc-Keeps, if-Keeps, perform_context_switch-Keeps, switch_to_next_available_proc-Keeps,
}
use yalnix_operating_system.Process.Blocks.{check_block, delay, block_active, wait_block, has_items}
use yalnix_operating_system.Process.Clock.{visit, sweep, handle_trap_clock}
use yalnix_operating_system.Process.Wait.{take_status, collect, childless, wait, wait_resumed}
use yalnix_operating_system.Process.Exit.{
  disown, discard, report_to_parent, next_initialized, exit, items_of,
}
use yalnix_operating_system.Process.Fork.{launch, fork_resumed}

module _ (at : ℕ) where
  pub delay-Keeps : (ticks : ℕ) → Keeps at (delay ticks)
  unfolding delay
  delay-Keeps ticks k a k' h = grind (arith, (switch_to_next_available_proc-Keeps at))

  pub check_block-Keeps : (p : ℕ) → Keeps at (check_block p)
  unfolding check_block
  check_block-Keeps p k a k' h = ground arith

  pub visit-Keeps : (p : ℕ) → Keeps at (visit p)
  unfolding visit
  visit-Keeps p k a k' h = grind (arith, check_block-Keeps)

  pub sweep-Keeps : (ns : NodeList) → Keeps at (sweep ns)
  unfolding sweep
  sweep-Keeps [] k a k' h = ground arith
  sweep-Keeps (n ∷ ns) k a k' h = grind (arith, visit-Keeps, sweep-Keeps ns)

  pub handle_trap_clock-Keeps : Keeps at (handle_trap_clock)
  unfolding handle_trap_clock
  handle_trap_clock-Keeps = bind-Keeps at get _ (get-Keeps at) (λ k.
      bind-Keeps at (if ltb 0 (count_items k.blocked_procs) then sweep k.blocked_procs else pure tt)
        _
        (if-Keeps at (ltb 0 (count_items k.blocked_procs)) (sweep k.blocked_procs) (pure tt)
          (sweep-Keeps k.blocked_procs) (pure-Keeps at tt))
        (λ _ k₁ a k' h. grind (arith, (switch_to_next_available_proc-Keeps at))))

  pub take_status-Keeps :
      (ptr pid : ℕ) (found : Option ListNode) → Keeps at (take_status ptr pid found)
  unfolding take_status
  take_status-Keeps ptr pid none k a k' h = ground arith
  take_status-Keeps ptr pid (some n) k a k' h = ground arith

  pub collect-Keeps : (parent ptr : ℕ) → Keeps at (collect parent ptr)
  unfolding collect
  collect-Keeps parent ptr k a k' h = grind (arith, take_status-Keeps)

  -- The end of a wait for a child that has not exited: the caller, its control block `c`, is blocked.
  abbrev wait_blocked : (parent ptr : ℕ) → Pcb → M Outcome
  wait_blocked parent ptr c = do
    store_proc parent (record c {
      block = record {
        active = block_active;
        type = wait_block;
        delay_count = 0;
        obj_ptr = parent;
      };
    })
    k' ← get
    put (record k' { blocked_procs = add_to_list k'.blocked_procs parent c.proc_id })
    if count_items k'.ready_procs == 0 then stop error else do
      switch_to_next_available_proc trap_frame (after_wait parent ptr) false
      pure switched

  wait_blocked-Keeps :
      (parent ptr : ℕ) (c : Pcb) (k : Kernel) (a : Outcome) (k' : Kernel)
      → k.procs parent ≡ some c
      → wait_blocked parent ptr c k ≡ ok a k'
      → SameTables at k k'
  wait_blocked-Keeps parent ptr c k a k' here h =
      grind (arith, switch_to_next_available_proc-Keeps at)

  wait_tests-Keeps :
      (p q : Bool) (parent ptr : ℕ) (c : Pcb) (k : Kernel) (a : Outcome) (k' : Kernel)
      → k.procs parent ≡ some c
      → (if p
            then pure (returns (some error))
            else if q
            then (do rc ← collect parent ptr; pure (returns (some rc)))
            else wait_blocked parent ptr c)
          k
        ≡ ok a k'
      → SameTables at k k'
  wait_tests-Keeps true q parent ptr c k a k' here h = ground arith
  wait_tests-Keeps false true parent ptr c k a k' here h = grind (arith, collect-Keeps)
  wait_tests-Keeps false false parent ptr c k a k' here h =
      wait_blocked-Keeps parent ptr c k a k' here h

  wait_with-Keeps :
      (parent ptr : ℕ) (c : Pcb) (children : Option NodeList) (k : Kernel) (a : Outcome)
      (k' : Kernel)
      → k.procs parent ≡ some c
      → (elim children as (λ _. M Outcome) [
        | none ↦ pure (returns (some error))
        | some ns ↦
            if count_items ns == 0 && childless c.exited_children
            then pure (returns (some error))
            else if has_items c.exited_children
            then (do rc ← collect parent ptr; pure (returns (some rc)))
            else wait_blocked parent ptr c
      ])
          k
        ≡ ok a k'
      → SameTables at k k'
  wait_with-Keeps parent ptr c none k a k' here h = ground arith
  wait_with-Keeps parent ptr c (some ns) k a k' here h =
      wait_tests-Keeps (count_items ns == 0 && childless c.exited_children)
        (has_items c.exited_children) parent ptr c k a k' here h

  pub wait-Keeps : (ptr : ℕ) → Keeps at (wait ptr)
  unfolding wait
  wait-Keeps ptr k a k' h =
      let (c, k₁, e, rest) = and_then-eq-ok (load_proc k.curr_proc k) _ h in
      SameTables-trans at (load_proc-Keeps at k.curr_proc k c k₁ e)
        (wait_with-Keeps k.curr_proc ptr c c.children k₁ a k' (ground arith) rest)

  pub wait_resumed-Keeps : (parent ptr : ℕ) → Keeps at (wait_resumed parent ptr)
  unfolding wait_resumed
  wait_resumed-Keeps parent ptr =
      bind-Keeps at (load_proc parent) _ (load_proc-Keeps at parent) (λ c.
        bind-Keeps at (from c.exited_children) _ (from-Keeps at c.exited_children) (λ exited.
          if-Keeps at (count_items exited == 0) (pure error) (collect parent ptr)
            (pure-Keeps at error) (collect-Keeps parent ptr)))

  pub disown-Keeps : (ns : NodeList) → Keeps at (disown ns)
  unfolding disown
  disown-Keeps [] k a k' h = ground arith
  disown-Keeps (n ∷ ns) k a k' h = grind (arith, disown-Keeps ns)

  pub discard-Keeps : (ns : NodeList) → Keeps at (discard ns)
  unfolding discard
  discard-Keeps [] k a k' h = ground arith
  discard-Keeps (n ∷ ns) k a k' h = grind (arith, discard-Keeps ns)

  pub report_to_parent-Keeps : (parent proc pid : ℕ) → Keeps at (report_to_parent parent proc pid)
  unfolding report_to_parent
  report_to_parent-Keeps parent proc pid k a k' h = ground arith

  pub next_initialized-Keeps : (fuel : ℕ) → Keeps at (next_initialized fuel)
  unfolding next_initialized
  next_initialized-Keeps zero k a k' h = cc
  next_initialized-Keeps (suc fuel) k a k' h = grind (arith, next_initialized-Keeps fuel)

  -- The parts of an exit behind the first store, and behind the report to the parent.
  abbrev exit_end : (fresh proc pid : ℕ) → Pcb → M Outcome
  exit_end fresh proc pid c = do
    k₁ ← get
    put (record k₁ {
      all_procs = (remove_from_list k₁.all_procs proc).0;
      dead_procs = add_to_list k₁.dead_procs fresh pid;
      frame_list = free_frames c.region1_pt (free_frames c.region0_pt k₁.frame_list);
      procs = update k₁.procs proc none;
    })
    k₂ ← get
    next ← next_initialized (suc (count_items k₂.ready_procs))
    perform_context_switch proc null next (record { uc = trap_frame; rest = after_delay })
    pure switched

  exit_end-Keeps : (fresh proc pid : ℕ) (c : Pcb) → Keeps at (exit_end fresh proc pid c)
  exit_end-Keeps fresh proc pid c k a k' h =
      grind (arith, perform_context_switch-Keeps at, next_initialized-Keeps)

  abbrev exit_rest : (fresh proc : ℕ) (ready : NodeList) → M Outcome
  exit_rest fresh proc ready = do
    c ← load_proc proc
    if c.proc_id == 0 && count_items ready == 0 then stop success else do
      disown (items_of c.children)
      discard (items_of c.exited_children)
      report_to_parent c.parent proc c.proc_id
      exit_end fresh proc c.proc_id c

  exit_rest-Keeps : (fresh proc : ℕ) (ready : NodeList) → Keeps at (exit_rest fresh proc ready)
  exit_rest-Keeps fresh proc ready =
      bind-Keeps at (load_proc proc) _ (load_proc-Keeps at proc) (λ c.
        if-Keeps at (c.proc_id == 0 && count_items ready == 0) (stop success) _ (λ k a k' h. cc)
          (bind-Keeps at (disown (items_of c.children)) _ (disown-Keeps (items_of c.children)) (λ _.
            bind-Keeps at (discard (items_of c.exited_children)) _
              (discard-Keeps (items_of c.exited_children))
              (λ _.
                bind-Keeps at (report_to_parent c.parent proc c.proc_id) _
                  (report_to_parent-Keeps c.parent proc c.proc_id)
                  (λ _. exit_end-Keeps fresh proc c.proc_id c)))))

  pub exit-Keeps : (fresh status : ℕ) → Keeps at (exit fresh status)
  unfolding exit
  exit-Keeps fresh status =
      if-Keeps at (fresh == null) crash _ (λ k a k' h. cc)
        (λ k a k' h.
          let k₁ : Kernel = record k { status_at = update k.status_at fresh (some status) } in
          let same : SameTables at k k₁ = ground arith in
          SameTables-trans at same (exit_rest-Keeps fresh k.curr_proc k.ready_procs k₁ a k' h))

  pub launch-Keeps : (parent child : ℕ) → Keeps at (launch parent child)
  unfolding launch
  launch-Keeps parent child k a k' h = ground arith

  pub fork_resumed-Keeps : (parent child : ℕ) → Keeps at (fork_resumed parent child)
  unfolding fork_resumed
  fork_resumed-Keeps parent child k a k' h = ground arith
