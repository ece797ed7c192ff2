-- ===== src/System/Tables.antt =====
-- Which parts of the kernel leave the tables of locks, condition variables and pipes alone.
use yalnix_operating_system.Base.{
  ℕ, ◌≡◌, ◌∙◌, refl, subst, Bool, true, false, not, ◌&&◌, ◌||◌, Option, none, some, [], ◌∷◌, arith,
  if◌then◌else◌, ◌==◌, null, error,
}
use yalnix_operating_system.LinkedList.{NodeList, add_to_list}
use yalnix_operating_system.Kernel.State.{Kernel, Pcb, Lock, Point, Rest, UcRef}
use yalnix_operating_system.Kernel.Run.{M, pure, get, from, load_proc, ok, and_then-eq-ok, ◌>>=◌}
use yalnix_operating_system.Kernel.Switch.{perform_context_switch, switch_to_next_available_proc}
use yalnix_operating_system.Kernel.Switch.Same.{
  essence_of, perform_context_switch-Same, perform_context_switch-SameProcs,
}

-- What was at an address is there with the same identifier, or gone.
abbrev pub pid_kept : (before now : Option Pcb) → Bool
pid_kept before none = true
pid_kept none (some c) = false
pid_kept (some c) (some d) = d.proc_id == c.proc_id

abbrev pub no_null_item : NodeList → Bool
no_null_item [] = true
no_null_item (n ∷ ns) = not (n.item == null) && no_null_item ns

pub no_null_item-add_to_list :
    (ns : NodeList) (p i : ℕ)
    → no_null_item (add_to_list ns p i) ≡ (no_null_item ns && not (p == null))
no_null_item-add_to_list [] p i = ground arith
no_null_item-add_to_list (n ∷ ns) p i = ground (arith, no_null_item-add_to_list ns p i)

abbrev pub is_empty : NodeList → Bool
is_empty [] = true
is_empty (n ∷ ns) = false

-- A lock that nobody holds has no owner, and nobody waits for it.
abbrev pub is_idle_or_held : Option Lock → Bool
is_idle_or_held none = true
is_idle_or_held (some l) =
    no_null_item l.waiters
    && (not (l.is_claimed == 0) || ((l.owner_id == error) && is_empty l.waiters))

-- The tables are the same, and so is what the address `at` tells of a process or a lock.
pub record SameTables (at : ℕ) (k k' : Kernel) : Type 0 where
  pub locks : k'.locks ≡ k.locks
  pub cvars : k'.cvars ≡ k.cvars
  pub pipes : k'.pipes ≡ k.pipes
  pub next_id : k'.next_resource_id ≡ k.next_resource_id
  pub next_pid : k'.available_process_id ≡ k.available_process_id
  pub pid : pid_kept (k.procs at) (k'.procs at) ≡ true
  pub null_pid : pid_kept (k.procs null) (k'.procs null) ≡ true
  pub lock :
      k.procs null ≡ none
      → is_idle_or_held (k.lock_at at) ≡ true
      → is_idle_or_held (k'.lock_at at) ≡ true

-- A command that leaves the tables alone whenever it ends normally.
abbrev pub Keeps : ℕ → {A : Type 0} → M A → Type 0
Keeps at {A} m = (k : Kernel) (a : A) (k' : Kernel) → m k ≡ ok a k' → SameTables at k k'

pub pid_kept_trans :
    (x y z : Option Pcb) → pid_kept x y ≡ true → pid_kept y z ≡ true → pid_kept x z ≡ true
pid_kept_trans x y none e f = refl
pid_kept_trans x none (some d) e f = cc
pid_kept_trans none (some c) (some d) e f = cc
pid_kept_trans (some b) (some c) (some d) e f = ground arith

pub pid_kept-none : (y : Option Pcb) → pid_kept none y ≡ true → y ≡ none
pid_kept-none none e = refl
pid_kept-none (some d) e = cc

pub pid_kept_refl : (x : Option Pcb) → pid_kept x x ≡ true
pid_kept_refl none = refl
pid_kept_refl (some c) = ground arith

pid_kept-essence : (x y : Option Pcb) → essence_of y ≡ essence_of x → pid_kept x y ≡ true
pid_kept-essence x none e = refl
pid_kept-essence none (some d) e = cc
pid_kept-essence (some c) (some d) e = ground arith

module _ (at : ℕ) where
  pub SameTables-trans :
      {k k₁ k' : Kernel} → SameTables at k k₁ → SameTables at k₁ k' → SameTables at k k'
  SameTables-trans {k} {k₁} {k'} a b = record {
    locks = b.locks ∙ a.locks;
    cvars = b.cvars ∙ a.cvars;
    pipes = b.pipes ∙ a.pipes;
    next_id = b.next_id ∙ a.next_id;
    next_pid = b.next_pid ∙ a.next_pid;
    pid = pid_kept_trans (k.procs at) (k₁.procs at) (k'.procs at) a.pid b.pid;
    null_pid = pid_kept_trans (k.procs null) (k₁.procs null) (k'.procs null) a.null_pid b.null_pid;
    lock = λ free ok.
        b.lock
          (pid_kept-none (k₁.procs null)
            (subst (λ o. pid_kept o (k₁.procs null) ≡ true) free a.null_pid))
          (a.lock free ok);
  }

  pub bind-Keeps :
      {A B : Type 0} (m : M A) (f : A → M B)
      → Keeps at m
      → ((a : A) → Keeps at (f a))
      → Keeps at (m >>= f)
  bind-Keeps m f hm hf k b k' h =
      let (a, k₁, e, rest) = and_then-eq-ok (m k) f h in
      SameTables-trans (hm k a k₁ e) (hf a k₁ b k' rest)

  pub perform_context_switch-Keeps :
      (stack curr next : ℕ) (here : Point) → Keeps at (perform_context_switch stack curr next here)
  perform_context_switch-Keeps stack curr next here k a k' h =
      let (s, _, _) = perform_context_switch-Same stack curr next here k h in
      let procs = perform_context_switch-SameProcs stack curr next here k h in
      record {
        locks = s.locks;
        cvars = s.cvars;
        pipes = s.pipes;
        next_id = s.next_resource_id;
        next_pid = s.available_process_id;
        pid = pid_kept-essence (k.procs at) (k'.procs at) (procs at);
        null_pid = pid_kept-essence (k.procs null) (k'.procs null) (procs null);
        lock = λ free fine. rw s.lock_at fine;
      }

  pub switch_to_next_available_proc-Keeps :
      (uc : UcRef) (rest : Rest) (again : Bool)
      → Keeps at (switch_to_next_available_proc uc rest again)
  unfolding switch_to_next_available_proc
  switch_to_next_available_proc-Keeps uc rest again k a k' h =
      grind (arith, perform_context_switch-Keeps)

  pub pure-Keeps : {A : Type 0} (x : A) → Keeps at (pure x)
  pure-Keeps x k a k' h = ground arith

  pub get-Keeps : Keeps at get
  get-Keeps k a k' h = ground arith

  pub from-Keeps : {A : Type 0} (o : Option A) → Keeps at (from o)
  from-Keeps none k a k' h = cc
  from-Keeps (some x) k a k' h = ground arith

  pub load_proc-Keeps : (p : ℕ) → Keeps at (load_proc p)
  load_proc-Keeps p k a k' h = ground arith

  pub if-Keeps :
      {A : Type 0} (b : Bool) (m n : M A) → Keeps at m → Keeps at n → Keeps at (if b then m else n)
  if-Keeps true m n hm hn = hm
  if-Keeps false m n hm hn = hn
