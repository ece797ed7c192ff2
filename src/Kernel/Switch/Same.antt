-- ===== src/Kernel/Switch/Same.antt =====
-- What a switch of processes leaves as it is.
use yalnix_operating_system.Base.{
  ℕ, ◌≡◌, ◌≢◌, arith, some, none, [], ◌∙◌, null, true, ap, Option, is_some, Option-cases, inl, inr,
}
use yalnix_operating_system.Kernel.State.{Kernel, Pcb, Point, UcRef, trap_frame, pcb_uc}
use yalnix_operating_system.Kernel.Run.{ok, is_ok, and_then-eq-ok}
use yalnix_operating_system.Kernel.Switch.{my_kcs_switch, perform_context_switch, exchange_uc}

pub get_some : {A : Type 0} {o : Option A} → is_some o ≡ true → (a : A) × (o ≡ some a)
get_some {o} h = elim (Option-cases o) [ inl e ↦ cc (ap is_some e) | inr e ↦ e ]

-- A control block but for what a context switch saves in it and restores from it.
abbrev pub essence : Pcb → Pcb
essence c = record c {
  uc = record { vector = 0; code = 0; addr = 0; pc = 0; sp = 0; ebp = 0; regs = [] };
  kc_set = 0;
  region0_pt = [];
}

abbrev pub essence_of : Option Pcb → Option Pcb
essence_of none = none
essence_of (some c) = some (essence c)

-- Every process is the one it was, but for its saved contexts.
abbrev pub SameProcs : Kernel → Kernel → Type 0
SameProcs k k' = (p : ℕ) → essence_of (k'.procs p) ≡ essence_of (k.procs p)

-- What a context switch keeps of a process.
pub kept :
    (k k' : Kernel) (p : ℕ) (c : Pcb)
    → SameProcs k k'
    → k.procs p ≡ some c
    → (c' : Pcb) × (k'.procs p ≡ some c') × (essence c' ≡ essence c)
kept k k' p c same e = elim (Option-cases (k'.procs p)) [
  | inl f ↦ absurd (ground (arith, same p))
  | inr (c', f) ↦ (c', f, ground (arith, same p))
]

pub proc_id_of :
    (k k' : Kernel) (p : ℕ) (c : Pcb)
    → SameProcs k k'
    → k.procs p ≡ some c
    → (c' : Pcb) × (k'.procs p ≡ some c') × (c'.proc_id ≡ c.proc_id)
proc_id_of k k' p c same e = elim (Option-cases (k'.procs p)) [
  | inl f ↦ absurd (ground (arith, same p))
  | inr (c', f) ↦ (c', f, ground (arith, same p))
]

-- The parts of the kernel's state that no context switch touches.
pub record SameResources (k k' : Kernel) : Type 0 where
  pub lock_at : k'.lock_at ≡ k.lock_at
  pub cvar_at : k'.cvar_at ≡ k.cvar_at
  pub pipe_at : k'.pipe_at ≡ k.pipe_at
  pub tty_at : k'.tty_at ≡ k.tty_at
  pub line_at : k'.line_at ≡ k.line_at
  pub status_at : k'.status_at ≡ k.status_at
  pub locks : k'.locks ≡ k.locks
  pub cvars : k'.cvars ≡ k.cvars
  pub pipes : k'.pipes ≡ k.pipes
  pub ttys : k'.ttys ≡ k.ttys
  pub frame_list : k'.frame_list ≡ k.frame_list
  pub next_resource_id : k'.next_resource_id ≡ k.next_resource_id
  pub available_process_id : k'.available_process_id ≡ k.available_process_id
  pub blocked_procs : k'.blocked_procs ≡ k.blocked_procs
  pub all_procs : k'.all_procs ≡ k.all_procs
  pub dead_procs : k'.dead_procs ≡ k.dead_procs
  pub log : k'.log ≡ k.log

pub my_kcs_switch-Same :
    (curr next : ℕ) (here : Point) (k : Kernel) {k' : Kernel}
    → my_kcs_switch curr next here k ≡ ok tt k'
    → SameResources k k' × (k'.curr_proc ≡ k.curr_proc) × (k'.ready_procs ≡ k.ready_procs)
unfolding my_kcs_switch
my_kcs_switch-Same curr next here k h = ground arith

-- After a switch away from `curr` the kernel context that was running waits in `curr`.
pub my_kcs_switch-point :
    (curr next : ℕ) (here : Point) (k : Kernel) {k' : Kernel}
    → curr ≢ null
    → my_kcs_switch curr next here k ≡ ok tt k'
    → k'.point_at curr ≡ some here
unfolding my_kcs_switch
my_kcs_switch-point curr next here k c h = ground arith

pub my_kcs_switch-is_ok :
    (curr next : ℕ) (here : Point) (k : Kernel) {c n : Pcb}
    → k.procs curr ≡ some c
    → k.procs next ≡ some n
    → curr ≢ null
    → is_ok (my_kcs_switch curr next here k) ≡ true
unfolding my_kcs_switch
my_kcs_switch-is_ok curr next here k hc hn ne = ground arith

pub exchange_uc-Same :
    (stack curr next : ℕ) (uc : UcRef) (k : Kernel) {k' : Kernel}
    → exchange_uc stack curr next uc k ≡ ok tt k'
    → SameResources k k' × (k'.curr_proc ≡ k.curr_proc) × (k'.ready_procs ≡ k.ready_procs)
unfolding exchange_uc
exchange_uc-Same stack curr next trap_frame k h = ground arith
exchange_uc-Same stack curr next (pcb_uc p) k h = ground arith

pub my_kcs_switch-SameProcs :
    (curr next : ℕ) (here : Point) (k : Kernel) {k' : Kernel}
    → my_kcs_switch curr next here k ≡ ok tt k'
    → SameProcs k k'
unfolding my_kcs_switch
my_kcs_switch-SameProcs curr next here k h p = ground arith

pub exchange_uc-SameProcs :
    (stack curr next : ℕ) (uc : UcRef) (k : Kernel) {k' : Kernel}
    → exchange_uc stack curr next uc k ≡ ok tt k'
    → SameProcs k k'
unfolding exchange_uc
exchange_uc-SameProcs stack curr next trap_frame k h p = ground arith
exchange_uc-SameProcs stack curr next (pcb_uc q) k h p = ground arith

pub perform_context_switch-SameProcs :
    (stack curr next : ℕ) (here : Point) (k : Kernel) {k' : Kernel}
    → perform_context_switch stack curr next here k ≡ ok tt k'
    → SameProcs k k'
unfolding perform_context_switch
perform_context_switch-SameProcs stack curr next here k h p =
    let (u, k₁, e, rest) = and_then-eq-ok (exchange_uc stack curr next here.uc k) _ h in
    my_kcs_switch-SameProcs curr next here (record k₁ { curr_proc = next }) rest p
    ∙ exchange_uc-SameProcs stack curr next here.uc k e p

pub perform_context_switch-Same :
    (stack curr next : ℕ) (here : Point) (k : Kernel) {k' : Kernel}
    → perform_context_switch stack curr next here k ≡ ok tt k'
    → SameResources k k' × (k'.curr_proc ≡ next) × (k'.ready_procs ≡ k.ready_procs)
unfolding perform_context_switch
perform_context_switch-Same stack curr next here k h =
    let (u, k₁, e, rest) = and_then-eq-ok (exchange_uc stack curr next here.uc k) _ h in
    ground (
      arith,
      exchange_uc-Same stack curr next here.uc k e,
      my_kcs_switch-Same curr next here (record k₁ { curr_proc = next }) rest,
    )
