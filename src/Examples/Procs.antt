-- ===== src/Examples/Procs.antt =====
-- Exit, wait, delay, the clock and the context switch.
use yalnix_operating_system.Base.{◌≡◌, arith, refl, none, some, [], ◌∷◌, update}
use yalnix_operating_system.LinkedList.{node, find_by_id}
use yalnix_operating_system.Kernel.State.{
  Kernel, Pcb, trap_frame, after_clock, after_fork, zero_block,
}
use yalnix_operating_system.Kernel.Run.{ok, hangs, switched}
use yalnix_operating_system.Kernel.Switch.Laws.{CanSwitch}
use yalnix_operating_system.Memory.Frames.{free_frames}
use yalnix_operating_system.Process.Blocks.{unblocked, delay}
use yalnix_operating_system.Process.Blocks.Ticks.{checks, checks_of_delay, delay_lem}
use yalnix_operating_system.Process.Clock.{handle_trap_clock}
use yalnix_operating_system.Process.Clock.Turn.{handle_trap_clock_lem}
use yalnix_operating_system.Process.Clock.Sweep.{stay_blocked, become_ready}
use yalnix_operating_system.Process.Fork.{Mallocs, fork}
use yalnix_operating_system.Process.Fork.Child.{CanFork, for_user, fork_lem}
use yalnix_operating_system.Memory.Frames.{give_frames}
use yalnix_operating_system.Process.Exit.{exit, next_initialized}
use yalnix_operating_system.Process.Exit.Next.{next_initialized_lem, next_initialized_hangs}
use yalnix_operating_system.Process.Exit.Report.{CanExit}
use yalnix_operating_system.Process.Exit.Handover.{exit_lem}
use yalnix_operating_system.Examples.Sample.{kernel, user, child, waiting_parent, sleeper}

can_exit : CanExit kernel 900 child waiting_parent (node 1 100 ∷ node 3 300 ∷ []) (node 3 300) []
can_exit = record {
  running = refl;
  not_init = ground arith;
  has_parent = ground arith;
  other_parent = ground arith;
  parent = refl;
  siblings_of = refl;
  kids = tt;
  fresh_status = ground arith;
  unused = refl;
  queue = refl;
  next = (sleeper, refl, ground arith);
  other_next = ground arith;
  other_next_parent = ground arith;
}

can_switch : CanSwitch kernel trap_frame (node 3 300) []
can_switch = record {
  running = (child, refl);
  not_null = ground arith;
  has_uc = (_, refl);
  queue = refl;
  next = (sleeper, refl);
}

exit_lem_example :
    (k' : Kernel) × (q : Pcb) × (exit 900 42 kernel ≡ ok switched k')
    × (k'.curr_proc ≡ 300)
    × (k'.ready_procs ≡ [])
    × (k'.procs 100 ≡ none)
    × (k'.all_procs ≡ node 2 200 ∷ node 3 300 ∷ [])
    × (k'.frame_list
        ≡ free_frames child.region1_pt (free_frames child.region0_pt kernel.frame_list))
    × (k'.procs 200 ≡ some q)
    × (q.children ≡ some (node 3 300 ∷ []))
    × (q.exited_children ≡ some (node 1 0 ∷ []))
    × (k'.status_at 900 ≡ some 42)
    × (find_by_id k'.dead_procs 1 ≡ some (node 1 900))
exit_lem_example =
    exit_lem kernel 900 42 child waiting_parent (node 1 100 ∷ node 3 300 ∷ []) (node 3 300) []
      can_exit refl

checks_of_delay_example :
    (k' : Kernel) × (checks 1 300 kernel ≡ ok (unblocked ∷ []) k')
    × (k'.procs 300 ≡ some (record sleeper { block = zero_block }))
checks_of_delay_example = checks_of_delay 0 300 sleeper kernel (omega arith) refl

delay_lem_example :
    (k' : Kernel) × (c' : Pcb) × (delay 5 kernel ≡ ok switched k')
    × (k'.procs 100 ≡ some c')
    × (c'.block ≡ record { active = 1; type = 1; delay_count = 5; obj_ptr = 0 })
    × (k'.blocked_procs ≡ node 3 300 ∷ node 1 100 ∷ [])
    × (k'.curr_proc ≡ 300)
    × (k'.ready_procs ≡ [])
delay_lem_example =
    delay_lem kernel 5 child (node 3 300) [] refl (omega arith) (omega arith) can_switch

next_initialized_lem_example :
    next_initialized 1 kernel ≡ ok 300 (record kernel { ready_procs = [] })
next_initialized_lem_example =
    next_initialized_lem [] [] (node 3 300) sleeper 1 kernel refl tt refl (ground arith)
      (omega arith)

abbrev blank : Pcb
blank = record sleeper { kc_set = 0 }

abbrev blank_kernel : Kernel
blank_kernel = record kernel { procs = update kernel.procs 300 (some blank) }

next_initialized_hangs_example : next_initialized 9 blank_kernel ≡ hangs
next_initialized_hangs_example =
    next_initialized_hangs 9 (node 3 300) [] blank_kernel refl ((blank, refl, refl, refl), tt)

abbrev mallocs : Mallocs
mallocs = record { pcb = 400; junk = sleeper; region0_pt = 1000; region1_pt = 2000 }

-- The kernel with enough frames for a copy of process 100.
abbrev roomy : Kernel
roomy = record kernel {
  frame_list = node 30 0 ∷ node 31 0 ∷ node 32 0 ∷ node 33 0 ∷ node 34 0 ∷ [];
}

can_fork : CanFork roomy mallocs child user
unfolding give_frames
can_fork = record {
  running = refl;
  not_null = ground arith;
  trapped = refl;
  pcb = ground arith;
  new = ground arith;
  region0_pt = ground arith;
  region1_pt = ground arith;
  stack_frames = refl;
  user_frames = refl;
}

fork_lem_example :
    (k' : Kernel) × (c' p' : Pcb) × (fork mallocs roomy ≡ ok switched k')
    × (k'.curr_proc ≡ 400)
    × (k'.ready_procs ≡ node 3 300 ∷ node 1 100 ∷ [])
    × (k'.all_procs ≡ node 1 100 ∷ node 2 200 ∷ node 3 300 ∷ node 4 400 ∷ [])
    × (k'.procs 400 ≡ some c')
    × (c'.proc_id ≡ 4)
    × (c'.parent ≡ 100)
    × (c'.children ≡ none)
    × (c'.region1_pt ≡ (for_user roomy child).table)
    × (k'.procs 100 ≡ some p')
    × (p'.children ≡ some (node 4 400 ∷ []))
    × (k'.frame_list ≡ (for_user roomy child).frames)
    × (k'.point_at 100 ≡ some (record { uc = trap_frame; rest = after_fork 100 400 }))
fork_lem_example = fork_lem roomy mallocs child user can_fork

abbrev ticking : Kernel
ticking = record kernel { ready_procs = node 2 200 ∷ [] }

after_tick : node 2 200 ∷ become_ready ticking (node 3 300 ∷ []) ≡ node 2 200 ∷ node 3 300 ∷ []
unfolding become_ready
after_tick = refl

handle_trap_clock_lem_example :
    (k' : Kernel) × (handle_trap_clock ticking ≡ ok switched k')
    × (k'.curr_proc ≡ 200)
    × (k'.ready_procs ≡ node 3 300 ∷ node 1 100 ∷ [])
    × (k'.blocked_procs ≡ stay_blocked ticking (node 3 300 ∷ []))
    × (k'.point_at 100 ≡ some (record { uc = trap_frame; rest = after_clock }))
handle_trap_clock_lem_example =
    handle_trap_clock_lem ticking child user (tt, tt)
      ((sleeper, refl, refl, λ w. absurd (ground (arith, w))), tt) refl (ground arith) refl
      (node 2 200) (node 3 300 ∷ []) 2 after_tick refl
