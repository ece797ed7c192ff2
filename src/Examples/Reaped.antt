-- ===== src/Examples/Reaped.antt =====
-- Process 100 exits while its parent 200 waits for it; 300 runs until the clock ticks, and then 200.
use yalnix_operating_system.Base.{◌≡◌, refl, arith, none, some, [], ◌∷◌, update, set, replicate}
use yalnix_operating_system.LinkedList.{node, remove_from_list}
use yalnix_operating_system.Kernel.State.{
  Kernel, Pcb, UserContext, zero_block, trap_frame, after_wait, int_stored,
}
use yalnix_operating_system.Kernel.Run.{ok, switched, returns}
use yalnix_operating_system.Kernel.Switch.{
  my_kcs_switch, exchange_uc, perform_context_switch, switch_to_next_available_proc,
  finish_context_switch,
}
use yalnix_operating_system.Kernel.Switch.Turns.{clock_point}
use yalnix_operating_system.Memory.Frames.{free_frames}
use yalnix_operating_system.Process.Blocks.{check_block, block_active, wait_block}
use yalnix_operating_system.Process.Clock.{visit, sweep, handle_trap_clock}
use yalnix_operating_system.Process.Exit.{exit, disown, discard, report_to_parent, next_initialized}
use yalnix_operating_system.Process.Exit.Report.{CanExit}
use yalnix_operating_system.Process.Exit.Handover.{exit-wait}
use yalnix_operating_system.Dispatch.{resume, finish}
use yalnix_operating_system.System.Machine.{trapped}
use yalnix_operating_system.Examples.Sample.{kernel, user, child, waiting_parent, sleeper}
use yalnix_operating_system.Examples.Machine.{state_of}

abbrev caller : UserContext
caller = record user { regs = 4096 ∷ replicate 7 0 }

abbrev parent : Pcb
parent = record waiting_parent {
  uc = caller;
  block = record { active = block_active; type = wait_block; delay_count = 0; obj_ptr = 200 };
}

abbrev other : Pcb
other = record sleeper { block = zero_block }

abbrev waiting : Kernel
waiting = record kernel {
  procs = update (update kernel.procs 200 (some parent)) 300 (some other);
  blocked_procs = node 2 200 ∷ [];
  point_at =
      update (update (λ _. none) 300 (some clock_point)) 200
        (some (record { uc = trap_frame; rest = after_wait 200 4096 }));
}

can_end : CanExit waiting 900 child parent (node 1 100 ∷ node 3 300 ∷ []) (node 3 300) []
can_end = record {
  running = refl;
  not_init = ground arith;
  has_parent = ground arith;
  other_parent = ground arith;
  parent = refl;
  siblings_of = refl;
  kids = tt;
  fresh_status = ground arith;
  unused = refl;
  queue = refl;
  next = (other, refl, ground arith);
  other_next = ground arith;
  other_next_parent = ground arith;
}

ended : Kernel
unfolding exit disown discard report_to_parent next_initialized free_frames perform_context_switch
    exchange_uc my_kcs_switch
ended = state_of (exit 900 42 waiting)

ends : exit 900 42 waiting ≡ ok switched ended
unfolding ended
ends = refl

-- The state once 300 has gone on and the clock has ticked.
ticked : Kernel
unfolding resume finish finish_context_switch handle_trap_clock sweep visit check_block
    switch_to_next_available_proc perform_context_switch exchange_uc my_kcs_switch
ticked = state_of (handle_trap_clock (trapped (state_of (resume 0 ended)) user))

exit-wait_example :
    (k₂ : Kernel) × (q : Pcb) × (resume 0 ticked ≡ ok (returns (some 1)) k₂)
    × (ticked.procs 200 ≡ some q)
    × (k₂.log ≡ int_stored 200 4096 42 ∷ ticked.log)
    × (k₂.frame_at 200 ≡ some (let u = q.uc in record u { regs = set u.regs 0 1 }))
    × (k₂.procs 200 ≡ some (record q { exited_children = some [] }))
    × (k₂.dead_procs ≡ (remove_from_list ticked.dead_procs 900).0)
    × (k₂.status_at 900 ≡ none)
unfolding ticked ended
exit-wait_example =
    exit-wait waiting 900 42 child parent (node 1 100 ∷ node 3 300 ∷ []) (node 3 300) [] can_end
      4096 0 ended ticked refl refl ends refl refl refl refl refl
