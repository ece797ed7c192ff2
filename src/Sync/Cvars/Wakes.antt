-- ===== src/Sync/Cvars/Wakes.antt =====
-- Whom `Yalnix_CvarSignal` and `Yalnix_CvarBroadcast` wake, and what `Yalnix_CvarWait` gives up.
use mathlib.Core.List.{append-nil, append_assoc}
use yalnix_operating_system.Base.{
  ℕ, ◌≡◌, ◌≢◌, refl, sym, ◌∙◌, some, [], ◌∷◌, ◌++◌, arith, take, drop, success, update,
}
use yalnix_operating_system.LinkedList.{ListNode, NodeList, find_by_id, add_to_list}
use yalnix_operating_system.LinkedList.Laws.{add_to_list-append}
use yalnix_operating_system.Kernel.State.{Kernel, Cvar, Pcb, Lock, pcb_uc, after_cvar_wait}
use yalnix_operating_system.Kernel.Run.{ok, switched}
use yalnix_operating_system.Kernel.Procs.{AllProcs}
use yalnix_operating_system.Kernel.Switch.Laws.{CanSwitch, switch_to_next_available_proc-Switched}
use yalnix_operating_system.Sync.Locks.{release}
use yalnix_operating_system.Sync.Locks.Queue.{IsLock, leave, woken, queue_of}
use yalnix_operating_system.Sync.Locks.Handoff.{release-leave}
use yalnix_operating_system.Sync.Cvars.{wake_all, cvar_signal, cvar_broadcast, cvar_wait}

abbrev with_waiters : Cvar → NodeList → Cvar
with_waiters cvar ns = record cvar { waiters = ns }

wake_all_lem :
    (ws : NodeList) (ptr : ℕ) (cvar : Cvar) (k : Kernel)
    → k.cvar_at ptr ≡ some (with_waiters cvar ws)
    → AllProcs k ws
    → (k' : Kernel) × (wake_all ptr ws k ≡ ok tt k')
      × (k'.cvar_at ptr ≡ some (with_waiters cvar []))
      × ((p : ℕ) → p ≢ ptr → k'.cvar_at p ≡ k.cvar_at p)
      × (k'.ready_procs ≡ k.ready_procs ++ ws)
unfolding wake_all
wake_all_lem [] ptr cvar k stored all =
    (k, refl, stored, λ p ne. refl, sym (append-nil k.ready_procs))
wake_all_lem (w ∷ ws) ptr cvar k stored (ne, (c, e, i), rest) =
    let k₁ : Kernel = record k {
      cvar_at = update k.cvar_at ptr (some (with_waiters cvar ws));
      ready_procs = add_to_list k.ready_procs w.item c.proc_id;
    } in
    let (k', run, at, others, ready) = wake_all_lem ws ptr cvar k₁ (ground arith) rest in
    (
      k',
      ground (arith, run),
      at,
      λ p ne'. ground (arith, others p),
      ready ∙ rw (add_to_list-append, i, append_assoc),
    )

module _ (k : Kernel) (cvar_id : ℕ) (l : ListNode) (cvar : Cvar)
    (found : find_by_id k.cvars cvar_id ≡ some l) (stored : k.cvar_at l.item ≡ some cvar)
    (all : AllProcs k cvar.waiters) where
  -- A broadcast on a condition variable that exists, and whose waiters are processes, returns 0,
  -- adds every waiter to the ready queue, first come first, leaves nobody waiting, and changes no
  -- other condition variable.
  pub cvar_broadcast_lem :
      (k' : Kernel) × (cvar_broadcast cvar_id k ≡ ok success k')
      × (k'.cvar_at l.item ≡ some (with_waiters cvar []))
      × ((p : ℕ) → p ≢ l.item → k'.cvar_at p ≡ k.cvar_at p)
      × (k'.ready_procs ≡ k.ready_procs ++ cvar.waiters)
  unfolding cvar_broadcast
  cvar_broadcast_lem =
      let (k', run, rest, others, ready) = wake_all_lem cvar.waiters l.item cvar k stored all in
      (k', ground (arith, run), rest, others, ready)

  signal_as :
      (ws : NodeList)
      → cvar.waiters ≡ ws
      → AllProcs k ws
      → (k' : Kernel) × (cvar_signal cvar_id k ≡ ok success k')
        × (k'.cvar_at l.item ≡ some (with_waiters cvar (drop 1 ws)))
        × ((p : ℕ) → p ≢ l.item → k'.cvar_at p ≡ k.cvar_at p)
        × (k'.ready_procs ≡ k.ready_procs ++ take 1 ws)
  unfolding cvar_signal
  signal_as [] e a = (
    record k { cvar_at = update k.cvar_at l.item (some (with_waiters cvar [])) },
    ground arith,
    ground arith,
    λ p ne. ground arith,
    sym (append-nil k.ready_procs),
  )
  signal_as (w ∷ ws) e (ne, (c, h, i), rest) = (
    record k {
      cvar_at = update k.cvar_at l.item (some (with_waiters cvar ws));
      ready_procs = add_to_list k.ready_procs w.item c.proc_id;
    },
    ground arith,
    ground arith,
    λ p ne'. ground arith,
    rw (add_to_list-append, i),
  )

  -- A signal on a condition variable that exists, and whose waiters are processes, returns 0,
  -- moves the longest waiter, if there is one, to the end of the ready queue, and changes no other
  -- condition variable.
  pub cvar_signal_lem :
      (k' : Kernel) × (cvar_signal cvar_id k ≡ ok success k')
      × (k'.cvar_at l.item ≡ some (with_waiters cvar (drop 1 cvar.waiters)))
      × ((p : ℕ) → p ≢ l.item → k'.cvar_at p ≡ k.cvar_at p)
      × (k'.ready_procs ≡ k.ready_procs ++ take 1 cvar.waiters)
  cvar_signal_lem = signal_as cvar.waiters refl all

-- What a release leaves alone, and that it only adds to the ready queue.
release_frame :
    (lock_id : ℕ) (k : Kernel) {k' : Kernel} {rc : ℕ}
    → release lock_id k ≡ ok rc k'
    → (k'.cvars ≡ k.cvars)
      × (k'.cvar_at ≡ k.cvar_at)
      × (k'.procs ≡ k.procs)
      × (k'.curr_proc ≡ k.curr_proc)
unfolding release
release_frame lock_id k h = ground arith

module _ (k : Kernel) (cvar_id lock_id : ℕ) (v l : ListNode) (cvar : Cvar) (lock : Lock) (c : Pcb)
    (n : ListNode) (others : NodeList) (found : find_by_id k.cvars cvar_id ≡ some v)
    (stored : k.cvar_at v.item ≡ some cvar) (found_lock : find_by_id k.locks lock_id ≡ some l)
    (stored_lock : k.lock_at l.item ≡ some lock) (same_id : lock.id ≡ lock_id) (is : IsLock k lock)
    (running : k.procs k.curr_proc ≡ some c) (can : CanSwitch k (pcb_uc k.curr_proc) n others) where
  -- A wait on a condition variable with a well-formed lock, which exists under its identifier, by
  -- a process that can be switched out, does to the lock what `leave` does to its queue, puts the
  -- caller at the end of the variable's waiters, runs the first process of the ready queue, and
  -- leaves the caller where it will take the lock again.
  pub cvar_wait_lem :
      (k' : Kernel) × (cvar_wait cvar_id lock_id k ≡ ok switched k')
      × (k'.cvar_at v.item
          ≡ some (with_waiters cvar (add_to_list cvar.waiters k.curr_proc c.proc_id)))
      × ((lock' : Lock) × (k'.lock_at l.item ≡ some lock')
          × (queue_of lock' ≡ (leave c.proc_id (queue_of lock)).0))
      × (k'.curr_proc ≡ n.item)
      × (k'.point_at k.curr_proc
          ≡ some (record { uc = pcb_uc k.curr_proc; rest = after_cvar_wait l.item }))
  unfolding cvar_wait
  cvar_wait_lem =
      let (k₁, run, left, ready) =
        release-leave k lock_id l lock c found_lock stored_lock is running in
      let (cvars, cvar_at, procs, curr) = release_frame lock_id k run in
      let waiting : Cvar = with_waiters cvar (add_to_list cvar.waiters k.curr_proc c.proc_id) in
      let k₂ : Kernel = record k₁ { cvar_at = update k₁.cvar_at v.item (some waiting) } in
      let more : NodeList = others ++ woken lock (leave c.proc_id (queue_of lock)).1 in
      let can₂ : CanSwitch k₂ (pcb_uc k.curr_proc) n more = record {
        running = (c, ground arith);
        not_null = ground (arith, can.not_null);
        has_uc = (c, ground arith);
        queue = ready ∙ rw can.queue;
        next = (can.next.0, ground (arith, can.next.1));
      } in
      let (k', e, s) =
        switch_to_next_available_proc-Switched k₂ (pcb_uc k.curr_proc) (after_cvar_wait l.item)
          can₂ in
      (
        k',
        ground arith,
        ground (arith, s.same.cvar_at),
        (left.lock, ground (arith, s.same.lock_at, left.stored), left.queue),
        s.curr,
        ground (arith, s.point),
      )
