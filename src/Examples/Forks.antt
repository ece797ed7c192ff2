-- ===== src/Examples/Forks.antt =====
-- A fork that needs four frames where three are free.
use yalnix_operating_system.Base.{◌≡◌, refl, none, some, [], arith, error}
use yalnix_operating_system.Kernel.State.{Kernel, Pcb}
use yalnix_operating_system.Kernel.Run.{ok, returns}
use yalnix_operating_system.Memory.Frames.{give_frames}
use yalnix_operating_system.Process.Fork.{Mallocs, fork}
use yalnix_operating_system.Process.Fork.Short.{ShortFork, fork_short}
use yalnix_operating_system.Examples.Sample.{kernel, user, child, pcb}

abbrev mallocs : Mallocs
mallocs = record { pcb = 900; junk = pcb 0 0; region0_pt = 901; region1_pt = 902 }

too_few : ShortFork kernel mallocs child user
unfolding give_frames
too_few = record {
  running = refl;
  trapped = refl;
  pcb = ground arith;
  new = ground arith;
  region0_pt = ground arith;
  region1_pt = ground arith;
  short = refl;
}

fork_short_example :
    (k' : Kernel) × (c' p' : Pcb) × (fork mallocs kernel ≡ ok (returns (some error)) k')
    × (k'.frame_list ≡ [])
    × (k'.available_process_id ≡ 5)
    × (k'.procs 900 ≡ some c')
    × (c'.proc_id ≡ 4)
    × (k'.procs 100 ≡ some p')
    × (p'.children ≡ none)
    × (k'.curr_proc ≡ 100)
    × (k'.ready_procs ≡ kernel.ready_procs)
    × (k'.all_procs ≡ kernel.all_procs)
fork_short_example = fork_short kernel mallocs child user too_few
