-- ===== src/Kernel/Switch/Laws.antt =====
-- When a switch of processes ends, and what it does then.
use yalnix_operating_system.Base.{ℕ, ◌≡◌, ◌≢◌, arith, some, ◌∷◌, false, null, true}
use yalnix_operating_system.Kernel.State.{
  Kernel, Pcb, Point, UcRef, UserContext, Rest, trap_frame, pcb_uc,
}
use yalnix_operating_system.Kernel.Run.{ok, is_ok, is_ok-ok, and_then-eq-ok}
use yalnix_operating_system.LinkedList.{ListNode, NodeList}
use yalnix_operating_system.Kernel.Switch.{
  my_kcs_switch, perform_context_switch, switch_to_next_available_proc, exchange_uc,
}
use yalnix_operating_system.Kernel.Switch.Same.{
  SameProcs, SameResources, get_some, my_kcs_switch-is_ok, my_kcs_switch-point,
  perform_context_switch-Same, perform_context_switch-SameProcs,
}

-- `*uc` can be read in code that runs on the kernel stack of `stack`.
abbrev pub HasUc : Kernel → ℕ → UcRef → Type 0
HasUc k stack trap_frame = (u : UserContext) × (k.frame_at stack ≡ some u)
HasUc k stack (pcb_uc p) = (c : Pcb) × (k.procs p ≡ some c)

exchange_uc-is_ok :
    (stack curr next : ℕ) (uc : UcRef) (k : Kernel) {c n : Pcb}
    → k.procs curr ≡ some c
    → k.procs next ≡ some n
    → HasUc k stack uc
    → is_ok (exchange_uc stack curr next uc k) ≡ true
unfolding exchange_uc
exchange_uc-is_ok stack curr next trap_frame k hc hn hu = ground arith
exchange_uc-is_ok stack curr next (pcb_uc p) k hc hn hu = ground arith

-- The exchange allocates and frees no control block.
exchange_uc-procs :
    (stack curr next : ℕ) (uc : UcRef) (k : Kernel) {k' : Kernel} {c : Pcb} (p : ℕ)
    → k.procs p ≡ some c
    → exchange_uc stack curr next uc k ≡ ok tt k'
    → (c' : Pcb) × (k'.procs p ≡ some c')
unfolding exchange_uc
exchange_uc-procs stack curr next trap_frame k p hc h = get_some (ground arith)
exchange_uc-procs stack curr next (pcb_uc q) k p hc h = get_some (ground arith)

pub perform_context_switch-is_ok :
    (stack curr next : ℕ) (here : Point) (k : Kernel) {c n : Pcb}
    → k.procs curr ≡ some c
    → k.procs next ≡ some n
    → curr ≢ null
    → HasUc k stack here.uc
    → is_ok (perform_context_switch stack curr next here k) ≡ true
unfolding perform_context_switch
perform_context_switch-is_ok stack curr next here k hc hn ne hu =
    let (k₁, e) = is_ok-ok _ (exchange_uc-is_ok stack curr next here.uc k hc hn hu) in
    let (c₁, hc₁) = exchange_uc-procs stack curr next here.uc k curr hc e in
    let (n₁, hn₁) = exchange_uc-procs stack curr next here.uc k next hn e in
    rw e (my_kcs_switch-is_ok curr next here (record k₁ { curr_proc = next }) hc₁ hn₁ ne)

-- A process that has a kernel context can be switched to out of nothing.
pub perform_context_switch-is_ok-null :
    (stack next : ℕ) (rest : Rest) (k : Kernel) {n : Pcb}
    → k.procs next ≡ some n
    → n.kc_set ≢ 0
    → is_ok (perform_context_switch stack null next (record { uc = trap_frame; rest = rest }) k)
      ≡ true
unfolding perform_context_switch exchange_uc my_kcs_switch
perform_context_switch-is_ok-null stack next rest k hn set = ground arith

-- The state after `curr_proc` has blocked and the first process of the ready queue runs.
pub record Switched (k : Kernel) (next : ℕ) (others : NodeList) (here : Point) (k' : Kernel)
    : Type 0 where
  pub same : SameResources k k'
  pub open same use *
  pub curr : k'.curr_proc ≡ next
  pub ready : k'.ready_procs ≡ others
  pub procs : SameProcs k k'
  pub point : k'.point_at k.curr_proc ≡ some here

-- What a switch away from `k.curr_proc` wants: both processes exist, and `*uc` can be read.
pub record CanSwitch (k : Kernel) (uc : UcRef) (n : ListNode) (others : NodeList) : Type 0 where
  pub running : (c : Pcb) × (k.procs k.curr_proc ≡ some c)
  pub not_null : k.curr_proc ≢ null
  pub has_uc : HasUc k k.curr_proc uc
  pub queue : k.ready_procs ≡ n ∷ others
  pub next : (c : Pcb) × (k.procs n.item ≡ some c)

pub perform_context_switch-point :
    (stack curr next : ℕ) (here : Point) (k : Kernel) {k' : Kernel}
    → curr ≢ null
    → perform_context_switch stack curr next here k ≡ ok tt k'
    → k'.point_at curr ≡ some here
unfolding perform_context_switch
perform_context_switch-point stack curr next here k ne h =
    let (u, k₁, e, rest) = and_then-eq-ok (exchange_uc stack curr next here.uc k) _ h in
    my_kcs_switch-point curr next here (record k₁ { curr_proc = next }) ne rest

HasUc-ready :
    (k : Kernel) (l : NodeList) (uc : UcRef)
    → HasUc k k.curr_proc uc
    → HasUc (record k { ready_procs = l }) k.curr_proc uc
HasUc-ready k l trap_frame h = h
HasUc-ready k l (pcb_uc p) h = h

SameResources-ready :
    (k : Kernel) (l : NodeList) {k' : Kernel}
    → SameResources (record k { ready_procs = l }) k'
    → SameResources k k'
SameResources-ready k l s = ground arith

module _ (k : Kernel) (uc : UcRef) (rest : Rest) {n : ListNode} {others : NodeList} where
  -- If the running process and the first process of the ready queue exist and the user context can
  -- be read, a switch that does not queue the caller ends: the first ready process runs and leaves
  -- the queue, the caller's kernel context is saved, no lock, pipe, queue or other resource
  -- changes, and no process but for its saved contexts.
  pub switch_to_next_available_proc-Switched :
      CanSwitch k uc n others
      → (k' : Kernel) × (switch_to_next_available_proc uc rest false k ≡ ok tt k')
        × Switched k n.item others (record { uc = uc; rest = rest }) k'
  unfolding switch_to_next_available_proc
  switch_to_next_available_proc-Switched can =
      let k₀ : Kernel = record k { ready_procs = others } in
      let here : Point = record { uc = uc; rest = rest } in
      let (k', e) = is_ok-ok _ (
        perform_context_switch-is_ok k.curr_proc k.curr_proc n.item here k₀ can.running.1 can.next.1
          can.not_null (HasUc-ready k others uc can.has_uc)) in
      let (same, curr, ready) =
        perform_context_switch-Same k.curr_proc k.curr_proc n.item here k₀ e in
      (
        k',
        simp can.queue e,
        record {
          same = SameResources-ready k others same;
          curr = curr;
          ready = ready;
          procs = perform_context_switch-SameProcs k.curr_proc k.curr_proc n.item here k₀ e;
          point =
              perform_context_switch-point k.curr_proc k.curr_proc n.item here k₀ can.not_null e;
        },
      )
