-- ===== src/Kernel/Switch/Turns.antt =====
-- What a switch at a clock trap makes of the processes that take turns.
use yalnix_operating_system.Base.{
  ℕ, ◌≡◌, ◌≢◌, Bool, true, false, ◌||◌, ◌&&◌, if◌then◌else◌, update, Option, none, some, arith,
  ◌==◌, null, Bool-cases, inl, inr, subst, sym, ◌∙◌,
}
use yalnix_operating_system.Kernel.State.{
  Kernel, Pcb, Point, UserContext, UcRef, trap_frame, pcb_uc, Rest, after_clock,
}
use yalnix_operating_system.Kernel.Run.{ok}
use yalnix_operating_system.Kernel.Switch.{perform_context_switch, exchange_uc, my_kcs_switch}

-- The point at which a clock trap leaves a process.
abbrev pub clock_point : Point
clock_point = record { uc = trap_frame; rest = after_clock }

-- The identifier of the process at an address, and the user context that is saved for it.
abbrev pub job_at : Kernel → ℕ → Option (ℕ × UserContext)
job_at k p = elim (k.procs p) [ none ↦ none | some c ↦ some (c.proc_id, c.uc) ]

abbrev pub is_clock_rest : Rest → Bool
is_clock_rest after_clock = true
is_clock_rest r = false

abbrev pub is_clock_uc : UcRef → Bool
is_clock_uc trap_frame = true
is_clock_uc (pcb_uc p) = false

abbrev pub is_clock_point : Option Point → Bool
is_clock_point none = false
is_clock_point (some p) = is_clock_uc p.uc && is_clock_rest p.rest

abbrev pub is_new : Option Pcb → Bool
is_new none = false
is_new (some c) = c.kc_set == 0

-- A process that has not run yet, or that a clock trap has left.
abbrev pub takes_turns : Kernel → ℕ → Bool
takes_turns k p = is_new (k.procs p) || is_clock_point (k.point_at p)

-- What a switch from `curr` to `next` makes of the process at `q`.
pub record Turned (curr next : ℕ) (u : UserContext) (i : ℕ) (k : Kernel) (q : ℕ) (k' : Kernel)
    : Type 0 where
  pub job : job_at k' q ≡ (if curr == q then some (i, u) else job_at k q)
  pub takes : takes_turns k q ≡ true → takes_turns k' q ≡ true
  pub left : takes_turns k' curr ≡ true
  pub back : takes_turns k next ≡ true → is_clock_point (k'.point_at next) ≡ true

exchanged :
    (curr next : ℕ) (c n : Pcb) (u : UserContext) (k : Kernel)
    → k.procs curr ≡ some c
    → k.procs next ≡ some n
    → curr ≢ next
    → k.frame_at curr ≡ some u
    → curr ≢ null
    → exchange_uc curr curr next trap_frame k
      ≡ ok tt (record k {
        procs = update k.procs curr (some (record c { uc = u }));
        frame_at = update k.frame_at curr (some n.uc);
      })
unfolding exchange_uc
exchanged curr next c n u k at_c at_n apart frame not_null = ground arith

switched_job :
    (curr next : ℕ) (k : Kernel) (q : ℕ) {k' : Kernel}
    → my_kcs_switch curr next clock_point k ≡ ok tt k'
    → job_at k' q ≡ job_at k q
unfolding my_kcs_switch
switched_job curr next k q h = ground arith

switched_left :
    (curr next : ℕ) (k : Kernel) {k' : Kernel}
    → my_kcs_switch curr next clock_point k ≡ ok tt k'
    → curr ≢ null
    → takes_turns k' curr ≡ true
unfolding my_kcs_switch
switched_left curr next k h not_null = ground arith

switched_back :
    (curr next : ℕ) (k : Kernel) {k' : Kernel}
    → my_kcs_switch curr next clock_point k ≡ ok tt k'
    → curr ≢ null
    → takes_turns k next ≡ true
    → is_clock_point (k'.point_at next) ≡ true
unfolding my_kcs_switch
switched_back curr next k h not_null e = ground arith

switched_others :
    (curr next : ℕ) (k : Kernel) (q : ℕ) {k' : Kernel}
    → my_kcs_switch curr next clock_point k ≡ ok tt k'
    → (curr == q) ≡ false
    → (next == q) ≡ false
    → (k'.procs q ≡ k.procs q) × (k'.point_at q ≡ k.point_at q)
unfolding my_kcs_switch
switched_others curr next k q h not_curr not_next = ground arith

back_takes : (k : Kernel) (p : ℕ) → is_clock_point (k.point_at p) ≡ true → takes_turns k p ≡ true
back_takes k p e = ground (arith, e)

switched_takes :
    (curr next : ℕ) (k : Kernel) (q : ℕ) {k' : Kernel}
    → my_kcs_switch curr next clock_point k ≡ ok tt k'
    → curr ≢ null
    → takes_turns k q ≡ true
    → takes_turns k' q ≡ true
switched_takes curr next k q {k'} h not_null e = elim (Bool-cases (curr == q)) [
  | inl same ↦
      subst (λ p. takes_turns k' p ≡ true) (ground (arith, same))
        (switched_left curr next k h not_null)
  | inr not_curr ↦ elim (Bool-cases (next == q)) [
    | inl same ↦
        let eq : next ≡ q = ground (arith, same) in
        subst (λ p. takes_turns k' p ≡ true) eq
          (back_takes k' next
            (switched_back curr next k h not_null (subst (λ p. takes_turns k p ≡ true) (sym eq) e)))
    | inr not_next ↦ ground (arith, switched_others curr next k q h not_curr not_next)
  ]
]

pub perform_context_switch-Turned :
    (curr next : ℕ) (c n : Pcb) (u : UserContext) (k : Kernel) (q : ℕ) {k' : Kernel}
    → k.procs curr ≡ some c
    → k.procs next ≡ some n
    → curr ≢ next
    → k.frame_at curr ≡ some u
    → curr ≢ null
    → perform_context_switch curr curr next clock_point k ≡ ok tt k'
    → Turned curr next u c.proc_id k q k'
unfolding perform_context_switch
perform_context_switch-Turned curr next c n u k q {k'} at_c at_n apart frame not_null h =
    let exchange = exchanged curr next c n u k at_c at_n apart frame not_null in
    let k₁ : Kernel = record k {
      procs = update k.procs curr (some (record c { uc = u }));
      frame_at = update k.frame_at curr (some n.uc);
      curr_proc = next;
    } in
    let run : my_kcs_switch curr next clock_point k₁ ≡ ok tt k' = ground (arith, exchange, h) in
    record {
      job = switched_job curr next k₁ q run ∙ ground arith;
      takes = λ e. switched_takes curr next k₁ q run not_null (ground (arith, e));
      left = switched_left curr next k₁ run not_null;
      back = λ e. switched_back curr next k₁ run not_null (ground (arith, e));
    }
