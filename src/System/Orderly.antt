-- ===== src/System/Orderly.antt =====
-- The invariant of the kernel's tables, processes and locks, and commands that keep it.
use yalnix_operating_system.Base.{
  ℕ, suc, ◌≤◌, ◌≡◌, ◌≢◌, refl, subst, Bool, true, not, Option, none, some, arith, ◌==◌, ltb, null,
}
use yalnix_operating_system.Kernel.State.{Kernel, Pcb}
use yalnix_operating_system.System.Tables.{SameTables, pid_kept, pid_kept-none, is_idle_or_held}
use yalnix_operating_system.System.Numbers.{Numbered, Numbered-Same, Numbered-suc}

abbrev pub pid_below : ℕ → Option Pcb → Bool
pid_below b none = true
pid_below b (some c) = ltb c.proc_id b

abbrev pub pids_differ : Option Pcb → Option Pcb → Bool
pids_differ none y = true
pids_differ (some c) none = true
pids_differ (some c) (some d) = not (c.proc_id == d.proc_id)

-- The tables are well numbered with at most `b` identifiers, the processes with at most `c`, and no lock that
-- is free has an owner or a waiter.
pub record Orderly (b c : ℕ) (k : Kernel) : Type 0 where
  pub tables : Numbered b k
  pub next_pid : k.available_process_id ≤ c
  pub null_free : k.procs null ≡ none
  pub below : (p : ℕ) → pid_below k.available_process_id (k.procs p) ≡ true
  pub distinct : (p q : ℕ) → p ≢ q → pids_differ (k.procs p) (k.procs q) ≡ true
  pub locks : (p : ℕ) → is_idle_or_held (k.lock_at p) ≡ true

pub pid_below-kept :
    (b : ℕ) (x y : Option Pcb) → pid_kept x y ≡ true → pid_below b x ≡ true → pid_below b y ≡ true
pid_below-kept b x none e f = refl
pid_below-kept b none (some d) e f = cc
pid_below-kept b (some c) (some d) e f = ground arith

pub pids_differ-kept :
    (x y x' y' : Option Pcb)
    → pid_kept x x' ≡ true
    → pid_kept y y' ≡ true
    → pids_differ x y ≡ true
    → pids_differ x' y' ≡ true
pids_differ-kept x y none y' e f g = refl
pids_differ-kept x y (some d) none e f g = refl
pids_differ-kept none y (some d) (some d') e f g = cc
pids_differ-kept (some c) none (some d) (some d') e f g = cc
pids_differ-kept (some c) (some c') (some d) (some d') e f g = ground arith

-- What an address tells of a process or a lock stays true.
pub record SameOthers (at : ℕ) (k k' : Kernel) : Type 0 where
  pub next_pid : k'.available_process_id ≡ k.available_process_id
  pub pid : pid_kept (k.procs at) (k'.procs at) ≡ true
  pub null_pid : pid_kept (k.procs null) (k'.procs null) ≡ true
  pub lock :
      k.procs null ≡ none
      → is_idle_or_held (k.lock_at at) ≡ true
      → is_idle_or_held (k'.lock_at at) ≡ true

SameTables-SameOthers : {at : ℕ} {k k' : Kernel} → SameTables at k k' → SameOthers at k k'
SameTables-SameOthers s = record {
  next_pid = s.next_pid;
  pid = s.pid;
  null_pid = s.null_pid;
  lock = s.lock;
}

pub Orderly-Others :
    {b c b' : ℕ} {k k' : Kernel}
    → ((at : ℕ) → SameOthers at k k')
    → Numbered b' k'
    → Orderly b c k
    → Orderly b' c k'
Orderly-Others {b} {c} {b'} {k} {k'} s n o = record {
  tables = n;
  next_pid = rw (s null).next_pid o.next_pid;
  null_free =
      pid_kept-none (k'.procs null)
        (subst (λ x. pid_kept x (k'.procs null) ≡ true) o.null_free (s null).null_pid);
  below = λ p.
      rw (s null).next_pid
        (pid_below-kept k.available_process_id (k.procs p) (k'.procs p) (s p).pid (o.below p));
  distinct = λ p q ne.
      pids_differ-kept (k.procs p) (k.procs q) (k'.procs p) (k'.procs q) (s p).pid (s q).pid
        (o.distinct p q ne);
  locks = λ p. (s p).lock o.null_free (o.locks p);
}

pub Orderly-Same :
    {b c : ℕ} {k k' : Kernel} → ((at : ℕ) → SameTables at k k') → Orderly b c k → Orderly b c k'
Orderly-Same s o =
    Orderly-Others (λ at. SameTables-SameOthers (s at)) (Numbered-Same (s null) o.tables) o

pub Orderly-more : {b c : ℕ} {k : Kernel} → Orderly b c k → Orderly b (suc c) k
Orderly-more o = record {
  tables = o.tables;
  next_pid = omega (arith, o.next_pid);
  null_free = o.null_free;
  below = o.below;
  distinct = o.distinct;
  locks = o.locks;
}

pub Orderly-more_objects : {b c : ℕ} {k : Kernel} → Orderly b c k → Orderly (suc b) c k
Orderly-more_objects o = record {
  tables = Numbered-suc o.tables;
  next_pid = o.next_pid;
  null_free = o.null_free;
  below = o.below;
  distinct = o.distinct;
  locks = o.locks;
}

pub Orderly-suc : {b c : ℕ} {k : Kernel} → Orderly b c k → Orderly (suc b) (suc c) k
Orderly-suc o = Orderly-more (Orderly-more_objects o)
