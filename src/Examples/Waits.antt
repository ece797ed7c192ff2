-- ===== src/Examples/Waits.antt =====
-- Locks, condition variables and the identifiers they have.
use yalnix_operating_system.Base.{ℕ, ◌≡◌, ◌≢◌, arith, refl, some, [], ◌∷◌, success, error, inl}
use yalnix_operating_system.LinkedList.{node}
use yalnix_operating_system.Kernel.State.{Kernel, Lock, pcb_uc, after_acquire, after_cvar_wait}
use yalnix_operating_system.Kernel.Run.{ok, switched}
use yalnix_operating_system.Kernel.Procs.{AllProcs}
use yalnix_operating_system.Kernel.Switch.Laws.{CanSwitch}
use yalnix_operating_system.Sync.Locks.{acquire, release}
use yalnix_operating_system.Sync.Locks.Queue.{IsLock, Leaves, queue_of}
use yalnix_operating_system.Sync.Locks.Handoff.{release-leave, acquire-enter}
use yalnix_operating_system.Sync.Cvars.{cvar_broadcast, cvar_wait}
use yalnix_operating_system.Sync.Cvars.Wakes.{cvar_broadcast_lem, cvar_wait_lem}
use yalnix_operating_system.Sync.Fresh.{FreshIds}
use yalnix_operating_system.Sync.Reclaim.{reclaim}
use yalnix_operating_system.Sync.Reclaim.InUse.{lock_held, reclaim-InUse}
use yalnix_operating_system.Examples.Sample.{kernel, child, waiting_parent, sleeper, lock, cvar}

waiters_exist : AllProcs kernel (node 3 300 ∷ [])
waiters_exist = (ground arith, (sleeper, refl, refl), tt)

is_lock : IsLock kernel lock
is_lock = record { idle = λ e. absurd (ground (arith, e)); procs = waiters_exist }

release-leave_example :
    (k' : Kernel) × (release 5 kernel ≡ ok success k')
    × Leaves kernel k' 500 (3 ∷ [])
    × (k'.ready_procs ≡ node 3 300 ∷ node 3 300 ∷ [])
release-leave_example = release-leave kernel 5 (node 5 500) lock child refl refl is_lock refl

-- Process 200 runs, and asks for the lock.
abbrev asking : Kernel
asking = record kernel { curr_proc = 200 }

asking-IsLock : IsLock asking lock
asking-IsLock = record {
  idle = λ e. absurd (ground (arith, e));
  procs = (ground arith, (sleeper, refl, refl), tt);
}

can_wait : CanSwitch asking (pcb_uc 200) (node 3 300) []
can_wait = record {
  running = (waiting_parent, refl);
  not_null = ground arith;
  has_uc = (waiting_parent, refl);
  queue = refl;
  next = (sleeper, refl);
}

acquire-enter_example :
    (k' : Kernel) × (acquire after_acquire 5 asking ≡ ok switched k')
    × Leaves asking k' 500 (1 ∷ 3 ∷ 2 ∷ [])
acquire-enter_example =
    acquire-enter asking 5 (node 5 500) lock waiting_parent refl refl asking-IsLock refl
      after_acquire (ground arith) can_wait

can_give_up : CanSwitch kernel (pcb_uc 100) (node 3 300) []
can_give_up = record {
  running = (child, refl);
  not_null = ground arith;
  has_uc = (child, refl);
  queue = refl;
  next = (sleeper, refl);
}

cvar_broadcast_lem_example :
    (k' : Kernel) × (cvar_broadcast 6 kernel ≡ ok success k')
    × (k'.cvar_at 600 ≡ some (record cvar { waiters = [] }))
    × ((p : ℕ) → p ≢ 600 → k'.cvar_at p ≡ kernel.cvar_at p)
    × (k'.ready_procs ≡ node 3 300 ∷ node 3 300 ∷ [])
cvar_broadcast_lem_example = cvar_broadcast_lem kernel 6 (node 6 600) cvar refl refl waiters_exist

cvar_wait_lem_example :
    (k' : Kernel) × (cvar_wait 6 5 kernel ≡ ok switched k')
    × (k'.cvar_at 600 ≡ some (record cvar { waiters = node 3 300 ∷ node 1 100 ∷ [] }))
    × ((lock' : Lock) × (k'.lock_at 500 ≡ some lock') × (queue_of lock' ≡ 3 ∷ []))
    × (k'.curr_proc ≡ 300)
    × (k'.point_at 100 ≡ some (record { uc = pcb_uc 100; rest = after_cvar_wait 500 }))
cvar_wait_lem_example =
    cvar_wait_lem kernel 6 5 (node 6 600) (node 5 500) cvar lock child (node 3 300) [] refl refl
      refl refl refl is_lock refl can_give_up

fresh_ids : FreshIds kernel
fresh_ids = record {
  locks = (omega arith, tt);
  cvars = (omega arith, tt);
  pipes = tt;
  room = omega arith;
}

reclaim-InUse_example : reclaim 5 kernel ≡ ok error kernel
reclaim-InUse_example =
    reclaim-InUse kernel 5 (lock_held (node 5 500) lock refl refl (inl (ground arith)))
