-- ===== src/Sync/Locks/Handoff.antt =====
-- `Yalnix_Acquire` and `Yalnix_Release` against the abstract queue.
use yalnix_operating_system.Base.{
  ℕ, ◌≡◌, ◌≢◌, ◌⊎◌, inl, inr, refl, some, List, [], ◌∷◌, ◌++◌, arith, ◌==◌, null, error, update,
  sym, subst, Bool-cases,
}
use mathlib.Core.List.{append-nil}
use yalnix_operating_system.LinkedList.Laws.{add_to_list-append}
use yalnix_operating_system.LinkedList.{ListNode, NodeList, add_to_list, find_by_id}
use yalnix_operating_system.Kernel.State.{Kernel, Lock, Pcb, Rest, pcb_uc}
use yalnix_operating_system.Kernel.Run.{ok}
use yalnix_operating_system.Kernel.Switch.Laws.{CanSwitch, switch_to_next_available_proc-Switched}
use yalnix_operating_system.Kernel.Procs.{
  ids, ids-add_to_list, AllProcs, AllProcs-Same, AllProcs-add_to_list,
}
use yalnix_operating_system.Sync.Locks.{acquire, release}
use yalnix_operating_system.Sync.Locks.Queue.{
  Answer, IsLock, Leaves, enter, granted, leave, outcome, queue_of, refused, reply, waiting, woken,
}

module _ (k : Kernel) (lock_id : ℕ) (l : ListNode) (lock : Lock) (c : Pcb)
    (found : find_by_id k.locks lock_id ≡ some l) (stored : k.lock_at l.item ≡ some lock)
    (is : IsLock k lock) (running : k.procs k.curr_proc ≡ some c) where
  abbrev Released : List ℕ → Answer → Type 0
  Released q a =
      (k' : Kernel) × (release lock_id k ≡ ok (reply a) k')
      × Leaves k k' l.item q
      × (k'.ready_procs ≡ k.ready_procs ++ woken lock a)

  release_refused :
      (lock.is_claimed ≡ 0) ⊎ (lock.owner_id ≢ c.proc_id) → Released (queue_of lock) refused
  unfolding release
  release_refused h = (
    k,
    ground arith,
    record { lock = lock; stored = stored; queue = refl; is_lock = is; others = λ p ne. refl },
    sym (append-nil k.ready_procs),
  )

  release_last :
      lock.is_claimed ≢ 0 → lock.owner_id ≡ c.proc_id → lock.waiters ≡ [] → Released [] granted
  unfolding release
  release_last h o e =
      let free : Lock = record lock { waiters = []; is_claimed = 0; owner_id = error } in
      (
        record k { lock_at = update k.lock_at l.item (some free) },
        ground arith,
        record {
          lock = free;
          stored = ground arith;
          queue = refl;
          is_lock = record { idle = λ z. (refl, refl); procs = tt };
          others = λ p ne. ground arith;
        },
        rw e (sym (append-nil k.ready_procs)),
      )

  release_next :
      (n : ListNode) (ns : NodeList) (w : Pcb)
      → lock.is_claimed ≢ 0
      → lock.owner_id ≡ c.proc_id
      → lock.waiters ≡ n ∷ ns
      → k.procs n.item ≡ some w
      → w.proc_id ≡ n.id
      → n.item ≢ null
      → AllProcs k ns
      → Released (ids lock.waiters) granted
  unfolding release
  release_next n ns w h o e hw hi ne all =
      let handed : Lock = record lock { waiters = ns; owner_id = w.proc_id } in
      (
        record k {
          lock_at = update k.lock_at l.item (some handed);
          ready_procs = add_to_list k.ready_procs n.item w.proc_id;
        },
        ground arith,
        record {
          lock = handed;
          stored = ground arith;
          queue = ground arith;
          is_lock = record { idle = ground arith; procs = all };
          others = λ p ne. ground arith;
        },
        rw (add_to_list-append, hi) (simp e),
      )

  release_as :
      (q : List ℕ) (a : Answer)
      → Released q a
      → leave c.proc_id (queue_of lock) ≡ (q, a)
      → Released (leave c.proc_id (queue_of lock)).0 (leave c.proc_id (queue_of lock)).1
  release_as q a r e = subst (λ (z : List ℕ × Answer). Released z.0 z.1) (sym e) r

  release_held :
      (ns : NodeList)
      → lock.waiters ≡ ns
      → AllProcs k ns
      → lock.is_claimed ≢ 0
      → lock.owner_id ≡ c.proc_id
      → Released (ids lock.waiters) granted
  release_held [] e all h o = subst (λ z. Released z granted) (ground arith) (release_last h o e)
  release_held (n ∷ ns) e (ne, (w, hw, hi), all) h o = release_next n ns w h o e hw hi ne all

  -- `release` of a lock that exists and is well-formed is `leave` of the abstract queue of
  -- identifiers: the holder gives the lock up, the longest waiter holds it then and is added to
  -- the ready queue; anyone else is refused. The lock stays well-formed, and all other locks are
  -- unchanged.
  pub release-leave :
      Released (leave c.proc_id (queue_of lock)).0 (leave c.proc_id (queue_of lock)).1
  release-leave = elim (Bool-cases (lock.is_claimed == 0)) [
    | inl free ↦
        release_as (queue_of lock) refused (release_refused (inl (ground arith))) (ground arith)
    | inr held ↦ elim (Bool-cases (lock.owner_id == c.proc_id)) [
      | inl own ↦
          release_as (ids lock.waiters) granted
            (release_held lock.waiters refl is.procs (ground arith) (ground arith)) (ground arith)
      | inr other ↦
          release_as (queue_of lock) refused (release_refused (inr (ground arith))) (ground arith)
    ]
  ]

  -- The caller's own state, wanted where it has to wait.
  module _ (rest : Rest) {n : ListNode} {others : NodeList} (pid : c.proc_id ≢ error)
      (can : CanSwitch k (pcb_uc k.curr_proc) n others) where
    abbrev Acquired : List ℕ → Answer → Type 0
    Acquired q a =
        (k' : Kernel) × (acquire rest lock_id k ≡ ok (outcome a) k') × Leaves k k' l.item q

    acquire_held :
        lock.is_claimed ≢ 0 → lock.owner_id ≡ c.proc_id → Acquired (queue_of lock) granted
    unfolding acquire
    acquire_held h o = (
      k,
      ground arith,
      record { lock = lock; stored = stored; queue = refl; is_lock = is; others = λ p ne. refl },
    )

    acquire_free : lock.is_claimed ≡ 0 → Acquired (c.proc_id ∷ []) granted
    unfolding acquire
    acquire_free h =
        let mine : Lock = record lock { is_claimed = 1; owner_id = c.proc_id } in
        (
          record k { lock_at = update k.lock_at l.item (some mine) },
          ground (arith, is.idle h),
          record {
            lock = mine;
            stored = ground arith;
            queue = ground (arith, is.idle h);
            is_lock = record { idle = ground arith; procs = is.procs };
            others = λ p ne. ground arith;
          },
        )

    acquire_wait :
        lock.is_claimed ≢ 0
        → lock.owner_id ≢ c.proc_id
        → Acquired (lock.owner_id ∷ (ids lock.waiters ++ c.proc_id ∷ [])) waiting
    unfolding acquire
    acquire_wait h o =
        let queued : Lock = record lock {
          waiters = add_to_list lock.waiters k.curr_proc c.proc_id;
        } in
        let k₁ : Kernel = record k { lock_at = update k.lock_at l.item (some queued) } in
        let can₁ : CanSwitch k₁ (pcb_uc k.curr_proc) n others = record {
          running = can.running;
          not_null = can.not_null;
          has_uc = can.has_uc;
          queue = can.queue;
          next = can.next;
        } in
        let (k', e, s) = switch_to_next_available_proc-Switched k₁ (pcb_uc k.curr_proc) rest can₁ in
        (
          k',
          ground arith,
          record {
            lock = queued;
            stored = ground (arith, s.same.lock_at);
            queue = ground (arith, ids-add_to_list lock.waiters k.curr_proc c.proc_id);
            is_lock = record {
              idle = ground arith;
              procs =
                  AllProcs-Same k k' queued.waiters s.procs (
                    AllProcs-add_to_list k lock.waiters k.curr_proc c is.procs can.not_null
                      running);
            };
            others = λ p ne. ground (arith, s.same.lock_at);
          },
        )

    acquire_as :
        (q : List ℕ) (a : Answer)
        → Acquired q a
        → enter c.proc_id (queue_of lock) ≡ (q, a)
        → Acquired (enter c.proc_id (queue_of lock)).0 (enter c.proc_id (queue_of lock)).1
    acquire_as q a r e = subst (λ (z : List ℕ × Answer). Acquired z.0 z.1) (sym e) r

    -- `acquire` of a lock that exists and is well-formed, by a process that can be switched out
    -- and whose identifier is not -1, is `enter` of the abstract queue of identifiers: a free lock
    -- is granted, the holder keeps it, anyone else joins the end of the queue and is switched out.
    -- The lock stays well-formed, and all other locks are unchanged.
    pub acquire-enter :
        Acquired (enter c.proc_id (queue_of lock)).0 (enter c.proc_id (queue_of lock)).1
    acquire-enter = elim (Bool-cases (lock.is_claimed == 0)) [
      | inl free ↦ acquire_as (c.proc_id ∷ []) granted (acquire_free (ground arith)) (ground arith)
      | inr held ↦ elim (Bool-cases (lock.owner_id == c.proc_id)) [
        | inl own ↦
            acquire_as (queue_of lock) granted (acquire_held (ground arith) (ground arith))
              (ground arith)
        | inr other ↦
            acquire_as (lock.owner_id ∷ (ids lock.waiters ++ c.proc_id ∷ [])) waiting
              (acquire_wait (ground arith) (ground arith)) (ground arith)
      ]
    ]
