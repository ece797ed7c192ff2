-- ===== src/System/Ticks.antt =====
-- A clock tick among processes that compute: a clock trap and, if it switched, the rest of the trap in the
-- process that runs then.
use yalnix_operating_system.Base.{
  ℕ, ◌≡◌, refl, sym, ap, subst, ◌∙◌, true, none, some, List, [], ◌∷◌, ◌++◌, arith, update,
  if◌then◌else◌, ◌==◌,
}
use yalnix_operating_system.LinkedList.{ListNode, NodeList, node, add_to_list}
use yalnix_operating_system.Kernel.State.{Kernel, Pcb, UserContext}
use yalnix_operating_system.Kernel.Run.{
  M, Outcome, Run, ok, is_ok-ok, returns, switched, ◌>>=◌, pure,
}
use yalnix_operating_system.Kernel.Switch.{
  switch_to_next_available_proc, perform_context_switch, finish_context_switch,
}
use yalnix_operating_system.Kernel.Switch.Laws.{perform_context_switch-is_ok}
use yalnix_operating_system.Kernel.Switch.Same.{perform_context_switch-Same}
use yalnix_operating_system.Kernel.Switch.Turns.{
  clock_point, job_at, is_clock_point, Turned, perform_context_switch-Turned,
}
use yalnix_operating_system.Process.Clock.{handle_trap_clock}
use yalnix_operating_system.Dispatch.{trap_clock, interrupt_vector, resume, finish}
use yalnix_operating_system.System.Machine.{trapped}
use yalnix_operating_system.System.Ring.{
  Job, nodes, Ring, with_uc, Away-last, AllDistinct-last, Waits-last, nodes-last, Waits-Turned,
  job_of,
}

abbrev pub go_on_if_switched : (retval : ℕ) → Outcome → M (Unit {0})
go_on_if_switched retval switched = do _ ← resume retval; pure tt
go_on_if_switched retval (returns v) = pure tt

-- The running process has come to the user context `u` when the clock ticks.
unfoldable pub tick : (retval : ℕ) → UserContext → Kernel → Run (Unit {0})
tick retval u k = (interrupt_vector trap_clock >>= go_on_if_switched retval) (trapped k u)

-- A clock trap with nobody blocked is a switch, once the caller stands at the end of the ready queue.
clock_switches :
    (k k' : Kernel) (c : Pcb) (n : ListNode) (others : NodeList)
    → k.blocked_procs ≡ []
    → k.procs k.curr_proc ≡ some c
    → k.ready_procs ≡ n ∷ others
    → perform_context_switch k.curr_proc k.curr_proc n.item clock_point
        (record k { ready_procs = add_to_list others k.curr_proc c.proc_id })
      ≡ ok tt k'
    → handle_trap_clock k ≡ ok switched k'
unfolding handle_trap_clock switch_to_next_available_proc
clock_switches k k' c n others blocked running ready run = ground arith

pub clock_alone :
    (k : Kernel)
    → k.blocked_procs ≡ []
    → k.ready_procs ≡ []
    → handle_trap_clock k ≡ ok (returns none) k
unfolding handle_trap_clock
clock_alone k blocked ready = ground arith

-- The rest of a clock trap: the process gets its context back.
resumes :
    (retval : ℕ) (k : Kernel) (p : ℕ) (c : Pcb) (v : UserContext)
    → k.curr_proc ≡ p
    → k.procs p ≡ some c
    → c.uc ≡ v
    → is_clock_point (k.point_at p) ≡ true
    → resume retval k ≡ ok (returns none) (record k { frame_at = update k.frame_at p (some v) })
unfolding resume finish finish_context_switch
resumes retval k p c v curr here saved point = ground arith

tick_as :
    (retval : ℕ) (u : UserContext) (k k₁ k' : Kernel) (o : Outcome)
    → handle_trap_clock (trapped k u) ≡ ok switched k₁
    → resume retval k₁ ≡ ok o k'
    → tick retval u k ≡ ok tt k'
unfolding tick interrupt_vector
tick_as retval u k k₁ k' o clock back = simp clock (simp back refl)

pub tick_alone :
    (retval : ℕ) (u : UserContext) (k : Kernel) (h : Job)
    → Ring k h []
    → tick retval u k ≡ ok tt (trapped k u)
unfolding tick interrupt_vector
tick_alone retval u k h r = simp (clock_alone (trapped k u) r.blocked r.ready) refl

-- The state in which the next process runs, with the caller behind the others.
module _ (u : UserContext) (k : Kernel) (h n : Job) (js : List Job) (r : Ring k h (n ∷ js)) where
  unfoldable pub queued : Kernel
  queued = record (trapped k u) { ready_procs = nodes (js ++ with_uc u h ∷ []) }

  next_there : (c : Pcb) × (k.procs n.item ≡ some c) × (c.proc_id ≡ n.id) × (c.uc ≡ n.uc)
  next_there = job_of k n.item n.id n.uc r.waits.1

  caught : (trapped k u).frame_at h.item ≡ some u
  caught = ground (arith, r.curr)

  pub switches :
      (k₁ : Kernel) × (perform_context_switch h.item h.item n.item clock_point queued ≡ ok tt k₁)
  unfolding queued
  switches = is_ok-ok _ (
      perform_context_switch-is_ok h.item h.item n.item clock_point queued r.running.1 next_there.1
        r.not_null (u, caught))

  turned :
      (k₁ : Kernel)
      → perform_context_switch h.item h.item n.item clock_point queued ≡ ok tt k₁
      → (q : ℕ) → Turned h.item n.item u h.id k q k₁
  unfolding queued
  turned k₁ run q =
      let (c, at_c, is_h) = r.running in
      let (d, at_d, _, _) = next_there in
      let t =
        perform_context_switch-Turned h.item n.item c d u queued q at_c at_d r.away.0 caught
          r.not_null run in
      record {
        job =
            subst (λ i. job_at k₁ q ≡ (if h.item == q then some (i, u) else job_at k q)) is_h t.job;
        takes = t.takes;
        left = t.left;
        back = t.back;
      }

  pub clock_switched :
      (k₁ : Kernel)
      → perform_context_switch h.item h.item n.item clock_point queued ≡ ok tt k₁
      → handle_trap_clock (trapped k u) ≡ ok switched k₁
  unfolding queued
  clock_switched k₁ run =
      let (c, at_c, is_h) = r.running in
      let at_curr : k.procs k.curr_proc ≡ some c = ap k.procs r.curr ∙ at_c in
      let last : add_to_list (nodes js) k.curr_proc c.proc_id ≡ nodes (js ++ with_uc u h ∷ []) =
        rw (r.curr, is_h) (nodes-last js (with_uc u h)) in
      clock_switches (trapped k u) k₁ c (node n.id n.item) (nodes js) r.blocked at_curr r.ready (
        subst
          (λ p.
            perform_context_switch p p n.item clock_point
              (record (trapped k u) { ready_procs = add_to_list (nodes js) k.curr_proc c.proc_id })
            ≡ ok tt k₁)
          (sym r.curr)
          (subst
            (λ l.
              perform_context_switch h.item h.item n.item clock_point
                (record (trapped k u) { ready_procs = l })
              ≡ ok tt k₁)
            (sym last) run))

  -- The state in which the next process is back in user mode.
  abbrev pub back_at : Kernel → Kernel
  back_at k₁ = record k₁ { frame_at = update k₁.frame_at n.item (some n.uc) }

  next_job :
      (k₁ : Kernel)
      → perform_context_switch h.item h.item n.item clock_point queued ≡ ok tt k₁
      → job_at k₁ n.item ≡ some (n.id, n.uc)
  next_job k₁ run = ground (arith, (turned k₁ run n.item).job, r.away.0, r.waits.1)

  pub tick_as_back :
      (retval : ℕ) (k₁ : Kernel)
      → perform_context_switch h.item h.item n.item clock_point queued ≡ ok tt k₁
      → (tick retval u k ≡ ok tt (back_at k₁)) × (resume retval k₁ ≡ ok (returns none) (back_at k₁))
  unfolding queued
  tick_as_back retval k₁ run =
      let (same, curr, ready) =
        perform_context_switch-Same h.item h.item n.item clock_point queued run in
      let (c, at_c, _, saved) = job_of k₁ n.item n.id n.uc (next_job k₁ run) in
      let point = (turned k₁ run n.item).back r.waits.2 in
      let back = resumes retval k₁ n.item c n.uc curr at_c saved point in
      (tick_as retval u k k₁ (back_at k₁) (returns none) (clock_switched k₁ run) back, back)

  pub Ring-back :
      (k₁ : Kernel)
      → perform_context_switch h.item h.item n.item clock_point queued ≡ ok tt k₁
      → Ring (back_at k₁) n (js ++ with_uc u h ∷ [])
  unfolding queued
  Ring-back k₁ run =
      let (same, curr, ready) =
        perform_context_switch-Same h.item h.item n.item clock_point queued run in
      let t = turned k₁ run in
      let (c, at_c, is_n, _) = job_of k₁ n.item n.id n.uc (next_job k₁ run) in
      record {
        curr = curr;
        not_null = r.waits.0;
        running = (c, at_c, is_n);
        frame = ground arith;
        ready = ready;
        blocked = same.blocked_procs ∙ r.blocked;
        away = Away-last n.item js (with_uc u h) r.distinct.0 (λ z. r.away.0 (sym z));
        distinct = AllDistinct-last js (with_uc u h) r.distinct.1 r.away.1;
        waits =
            Waits-last (back_at k₁) js (with_uc u h)
              (Waits-Turned h.item n.item u h.id k k₁ js t r.away.1 r.waits.3) r.not_null
              (ground (arith, (t h.item).job)) ((t h.item).left);
      }
