-- ===== src/System/Rounds.antt =====
-- Round robin: what several ticks make of the processes that take turns.
use yalnix_operating_system.Base.{
  ℕ, suc, ◌≡◌, refl, sym, ap, subst, ◌∙◌, false, none, some, List, [], ◌∷◌, ◌++◌, length, arith,
}
use yalnix_operating_system.Kernel.State.{Kernel, UserContext}
use yalnix_operating_system.Kernel.Run.{M, Outcome, ok, returns, switched, ◌>>◌, pure}
use yalnix_operating_system.Process.Clock.{handle_trap_clock}
use yalnix_operating_system.Dispatch.{trap_clock, interrupt_vector}
use yalnix_operating_system.System.Machine.{
  Machine, Step, trap, go_on, Reach, here, next, trapped, is_switched,
}
use yalnix_operating_system.System.Ring.{Job, Ring, with_uc, rotate}
use yalnix_operating_system.System.Ticks.{
  tick, clock_alone, tick_alone, switches, clock_switched, back_at, tick_as_back, Ring-back,
}

abbrev pub user_mode : Kernel → Machine
user_mode k = record { kernel = k; in_kernel = false }

abbrev Leads : Kernel → Kernel → Type 0
Leads k k' = (n : ℕ) × Reach (user_mode k) n (user_mode k')

Reach-trans :
    {m m₁ m₂ : Machine} {n n' : ℕ} → Reach m n m₁ → Reach m₁ n' m₂ → (i : ℕ) × Reach m i m₂
Reach-trans {n = n} r here = (n, r)
Reach-trans r (next s step) = let (i, t) = Reach-trans r s in (suc i, next t step)

clock_Step :
    (u : UserContext) (o : Outcome) (k k' : Kernel)
    → handle_trap_clock (trapped k u) ≡ ok o k'
    → Step (user_mode k) (record { kernel = k'; in_kernel = is_switched o })
unfolding interrupt_vector
clock_Step u o k k' run = trap trap_clock u o k' refl run refl

-- If a process runs that exists, with its user context in its trap frame, nobody is blocked, and
-- the processes of the ready queue are others, distinct, under their identifiers, and either new
-- or left by a clock trap, then a clock tick, with the rest of the trap in the process that runs
-- then, rotates the sequence of the processes with their user contexts: the first of those that
-- wait runs with its context, and the one that ran is the last, with the context it had at the
-- tick. The machine reaches the state behind the tick.
pub tick-rotate :
    (retval : ℕ) (u : UserContext) (k : Kernel) (h : Job) (js : List Job)
    → Ring k h js
    → (k' : Kernel) × (tick retval u k ≡ ok tt k')
      × Ring k' (rotate u h js).0 (rotate u h js).1
      × Leads k k'
tick-rotate retval u k h [] r = (
  trapped k u,
  tick_alone retval u k h r,
  record {
    curr = r.curr;
    not_null = r.not_null;
    running = r.running;
    frame = ground (arith, r.curr);
    ready = r.ready;
    blocked = r.blocked;
    away = tt;
    distinct = tt;
    waits = tt;
  },
  (1, next here (clock_Step u (returns none) k _ (clock_alone (trapped k u) r.blocked r.ready))),
)
tick-rotate retval u k h (n ∷ js) r =
    let (k₁, run) = switches u k h n js r in
    let (_, back) = tick_as_back u k h n js r retval k₁ run in
    let to_kernel = clock_Step u switched k k₁ (clock_switched u k h n js r k₁ run) in
    (
      back_at u k h n js r k₁,
      (tick_as_back u k h n js r retval k₁ run).0,
      Ring-back u k h n js r k₁ run,
      (2, next (next here to_kernel) (go_on retval (returns none) _ refl back refl)),
    )

-- As many ticks as there are user contexts.
unfoldable pub ticks : (retval : ℕ) → List UserContext → M (Unit {0})
ticks retval [] = pure tt
ticks retval (u ∷ us) = tick retval u >> ticks retval us

abbrev pub rotations : List UserContext → Job → List Job → Job × List Job
rotations [] h js = (h, js)
rotations (u ∷ us) h js = rotations us (rotate u h js).0 (rotate u h js).1

ticks-rotations :
    (retval : ℕ) (us : List UserContext) (k : Kernel) (h : Job) (js : List Job)
    → Ring k h js
    → (k' : Kernel) × (ticks retval us k ≡ ok tt k')
      × Ring k' (rotations us h js).0 (rotations us h js).1
      × Leads k k'
unfolding ticks
ticks-rotations retval [] k h js r = (k, refl, r, (0, here))
ticks-rotations retval (u ∷ us) k h js r =
    let (k₁, run, r₁, steps₁) = tick-rotate retval u k h js r in
    let (k', rest, r', steps) =
      ticks-rotations retval us k₁ (rotate u h js).0 (rotate u h js).1 r₁ in
    (k', simp run rest, r', Reach-trans steps₁.1 steps.1)

append_last :
    (xs : List Job) (n : Job) (ys : List Job) (h : Job)
    → (xs ++ n ∷ ys) ++ h ∷ [] ≡ xs ++ n ∷ (ys ++ h ∷ [])
append_last [] n ys h = refl
append_last (x ∷ xs) n ys h = ap (◌∷◌ x) (append_last xs n ys h)

-- As many rotations as a job has jobs in front of it, the running one among them, make it the first.
rotations_reach :
    (us : List UserContext) (h : Job) (xs : List Job) (n : Job) (ys : List Job)
    → length us ≡ suc (length xs)
    → (rotations us h (xs ++ n ∷ ys)).0 ≡ n
rotations_reach [] h xs n ys e = absurd (omega (arith, e))
rotations_reach (u ∷ []) h [] n ys e = refl
rotations_reach (u ∷ v ∷ us) h [] n ys e = absurd (omega (arith, e))
rotations_reach (u ∷ us) h (x ∷ xs) n ys e =
    subst (λ js. (rotations us x js).0 ≡ n) (sym (append_last xs n ys (with_uc u h)))
      (rotations_reach us x xs n (ys ++ with_uc u h ∷ []) (omega (arith, e)))

-- If a process runs that exists, with its user context in its trap frame, nobody is blocked, and
-- the processes of the ready queue are others, distinct, under their identifiers, and either new
-- or left by a clock trap, then as many clock ticks as a process has processes in front of it, the
-- running one among them, lead to a state in which that process runs with the user context that
-- was saved for it, whatever user contexts the others have come to at the ticks. The machine
-- reaches that state.
pub ticks_serve :
    (retval : ℕ) (us : List UserContext) (k : Kernel) (h : Job) (xs : List Job) (n : Job)
    (ys : List Job)
    → Ring k h (xs ++ n ∷ ys)
    → length us ≡ suc (length xs)
    → (k' : Kernel) × (ticks retval us k ≡ ok tt k')
      × (k'.curr_proc ≡ n.item)
      × (k'.frame_at n.item ≡ some n.uc)
      × ((i : ℕ) × Reach (user_mode k) i (user_mode k'))
ticks_serve retval us k h xs n ys r e =
    let (k', run, r', steps) = ticks-rotations retval us k h (xs ++ n ∷ ys) r in
    let first = rotations_reach us h xs n ys e in
    (
      k',
      run,
      r'.curr ∙ ap (λ (j : Job). j.item) first,
      subst (λ (j : Job). k'.frame_at j.item ≡ some j.uc) first r'.frame,
      steps,
    )
