-- ===== src/System/Spawn.antt =====
-- A new process gets an identifier that no other process has.
use yalnix_operating_system.Base.{
  ℕ, suc, ◌+◌, ◌<◌, ◌≡◌, ◌^◌, refl, ◌∙◌, sym, subst, ◌⊎◌, inl, inr, Bool, true, Option, none, some,
  arith, if◌then◌else◌, ◌==◌, null, add_word, Bool-cases,
}
use yalnix_operating_system.Kernel.State.{Kernel, Pcb, UserContext}
use yalnix_operating_system.Kernel.Run.{ok}
use yalnix_operating_system.Process.Fork.{new_process}
use yalnix_operating_system.System.Tables.{
  SameTables, pid_kept, pid_kept_trans, pid_kept-none, is_idle_or_held,
}
use yalnix_operating_system.System.Numbers.{Numbered, Numbered-kept}
use yalnix_operating_system.System.Orderly.{Orderly, pid_below, pids_differ, pids_differ-kept}

abbrev pid_is : ℕ → Option Pcb → Bool
pid_is i none = true
pid_is i (some c) = c.proc_id == i

-- What `at` tells of a process once one with the identifier `i` has been put at `fresh`.
abbrev pub pid_spawned : (fresh at i : ℕ) → (before now : Option Pcb) → Bool
pid_spawned fresh at i x y = if fresh == at then pid_is i y else pid_kept x y

pub record Spawned (fresh at : ℕ) (k k' : Kernel) : Type 0 where
  pub locks : k'.locks ≡ k.locks
  pub cvars : k'.cvars ≡ k.cvars
  pub pipes : k'.pipes ≡ k.pipes
  pub next_id : k'.next_resource_id ≡ k.next_resource_id
  pub next_pid : k'.available_process_id ≡ add_word k.available_process_id 1
  pub pid : pid_spawned fresh at k.available_process_id (k.procs at) (k'.procs at) ≡ true
  pub null_pid : pid_kept (k.procs null) (k'.procs null) ≡ true
  pub lock :
      k.procs null ≡ none
      → is_idle_or_held (k.lock_at at) ≡ true
      → is_idle_or_held (k'.lock_at at) ≡ true

pub new_process-Spawned :
    (at fresh : ℕ) (junk : Pcb) (uc : UserContext) (k : Kernel) (a : ℕ) (k' : Kernel)
    → new_process fresh junk uc k ≡ ok a k'
    → (a ≡ fresh) × Spawned fresh at k k'
unfolding new_process
new_process-Spawned at fresh junk uc k a k' h = ground arith

spawned_trans :
    (fresh at i : ℕ) (x y z : Option Pcb)
    → pid_spawned fresh at i x y ≡ true
    → pid_kept y z ≡ true
    → pid_spawned fresh at i x z ≡ true
spawned_trans fresh at i x y none e f = ground arith
spawned_trans fresh at i x none (some d) e f = cc
spawned_trans fresh at i none (some c) (some d) e f = ground arith
spawned_trans fresh at i (some b) (some c) (some d) e f = ground arith

spawned_later :
    (fresh at i : ℕ) (x y z : Option Pcb)
    → pid_kept x y ≡ true
    → pid_spawned fresh at i y z ≡ true
    → pid_spawned fresh at i x z ≡ true
spawned_later fresh at i x y none e f = ground arith
spawned_later fresh at i none none (some d) e f = f
spawned_later fresh at i none (some c) (some d) e f = cc
spawned_later fresh at i (some b) none (some d) e f = ground arith
spawned_later fresh at i (some b) (some c) (some d) e f = ground arith

null_still_free : (x y : Option Pcb) → pid_kept x y ≡ true → x ≡ none → y ≡ none
null_still_free x y e free = pid_kept-none y (subst (λ o. pid_kept o y ≡ true) free e)

pub Numbered-Spawned :
    {fresh at b : ℕ} {k k' : Kernel} → Spawned fresh at k k' → Numbered b k → Numbered b k'
Numbered-Spawned s n = Numbered-kept s.locks s.cvars s.pipes s.next_id n

module _ (fresh at : ℕ) {k k₁ k₂ : Kernel} where
  pub Spawned-before : SameTables at k k₁ → Spawned fresh at k₁ k₂ → Spawned fresh at k k₂
  Spawned-before a b = record {
    locks = b.locks ∙ a.locks;
    cvars = b.cvars ∙ a.cvars;
    pipes = b.pipes ∙ a.pipes;
    next_id = b.next_id ∙ a.next_id;
    next_pid = subst (λ i. k₂.available_process_id ≡ add_word i 1) a.next_pid b.next_pid;
    pid =
        spawned_later fresh at k.available_process_id (k.procs at) (k₁.procs at) (k₂.procs at) a.pid
          (subst (λ i. pid_spawned fresh at i (k₁.procs at) (k₂.procs at) ≡ true) a.next_pid b.pid);
    null_pid = pid_kept_trans (k.procs null) (k₁.procs null) (k₂.procs null) a.null_pid b.null_pid;
    lock = λ free fine.
        b.lock (null_still_free (k.procs null) (k₁.procs null) a.null_pid free) (a.lock free fine);
  }

  pub Spawned-after : Spawned fresh at k k₁ → SameTables at k₁ k₂ → Spawned fresh at k k₂
  Spawned-after a b = record {
    locks = b.locks ∙ a.locks;
    cvars = b.cvars ∙ a.cvars;
    pipes = b.pipes ∙ a.pipes;
    next_id = b.next_id ∙ a.next_id;
    next_pid = b.next_pid ∙ a.next_pid;
    pid =
        spawned_trans fresh at k.available_process_id (k.procs at) (k₁.procs at) (k₂.procs at) a.pid
          b.pid;
    null_pid = pid_kept_trans (k.procs null) (k₁.procs null) (k₂.procs null) a.null_pid b.null_pid;
    lock = λ free fine.
        b.lock (null_still_free (k.procs null) (k₁.procs null) a.null_pid free) (a.lock free fine);
  }

pid_below-spawned :
    (fresh at i : ℕ) (x y : Option Pcb)
    → pid_spawned fresh at i x y ≡ true
    → pid_below i x ≡ true
    → pid_below (i + 1) y ≡ true
pid_below-spawned fresh at i x none e f = refl
pid_below-spawned fresh at i none (some d) e f = ground arith
pid_below-spawned fresh at i (some c) (some d) e f = ground arith

-- A process is the new one, or it had its identifier before.
pid_new_or_old :
    (fresh at i : ℕ) (x y : Option Pcb)
    → pid_spawned fresh at i x y ≡ true
    → ((at ≡ fresh) × (pid_is i y ≡ true)) ⊎ (pid_kept x y ≡ true)
pid_new_or_old fresh at i x y e = elim (Bool-cases (fresh == at)) [
  | inl same ↦ inl (ground (arith, same), ground (arith, same))
  | inr apart ↦ inr (ground (arith, apart))
]

pids_differ-new :
    (i : ℕ) (x y y' : Option Pcb)
    → pid_is i x ≡ true
    → pid_kept y y' ≡ true
    → pid_below i y ≡ true
    → pids_differ x y' ≡ true
pids_differ-new i none y y' e f g = refl
pids_differ-new i (some c) y none e f g = refl
pids_differ-new i (some c) none (some d) e f g = cc
pids_differ-new i (some c) (some b) (some d) e f g = ground arith

pids_differ-sym : (x y : Option Pcb) → pids_differ x y ≡ true → pids_differ y x ≡ true
pids_differ-sym none none e = refl
pids_differ-sym none (some d) e = refl
pids_differ-sym (some c) none e = refl
pids_differ-sym (some c) (some d) e = ground arith

pub Orderly-Spawned :
    {b c fresh : ℕ} {k k' : Kernel}
    → suc c < 2 ^ 32
    → ((at : ℕ) → Spawned fresh at k k')
    → Orderly b c k
    → Orderly b (suc c) k'
Orderly-Spawned {b} {c} {fresh} {k} {k'} room s o =
    let wide : k'.available_process_id ≡ k.available_process_id + 1 =
      omega (arith, (s null).next_pid, o.next_pid) in
    record {
      tables = Numbered-Spawned (s null) o.tables;
      next_pid = omega (arith, wide, o.next_pid);
      null_free = null_still_free (k.procs null) (k'.procs null) (s null).null_pid o.null_free;
      below = λ p. rw wide (
          pid_below-spawned fresh p k.available_process_id (k.procs p) (k'.procs p) (s p).pid
            (o.below p));
      distinct = λ p q ne.
          elim (pid_new_or_old fresh p k.available_process_id (k.procs p) (k'.procs p) (s p).pid) [
            | inl (at_p, is_p) ↦
                elim (pid_new_or_old fresh q k.available_process_id (k.procs q) (k'.procs q)
                  (s q).pid) [
                    | inl (at_q, is_q) ↦ absurd (ne (at_p ∙ sym at_q))
                    | inr kept ↦
                        pids_differ-new k.available_process_id (k'.procs p) (k.procs q) (k'.procs q)
                          is_p kept (o.below q)
                  ]
            | inr kept_p ↦
                elim (pid_new_or_old fresh q k.available_process_id (k.procs q) (k'.procs q)
                  (s q).pid) [
                    | inl (at_q, is_q) ↦ pids_differ-sym (k'.procs q) (k'.procs p) (
                        pids_differ-new k.available_process_id (k'.procs q) (k.procs p) (k'.procs p)
                          is_q kept_p (o.below p))
                    | inr kept_q ↦
                        pids_differ-kept (k.procs p) (k.procs q) (k'.procs p) (k'.procs q) kept_p
                          kept_q (o.distinct p q ne)
                  ]
          ];
      locks = λ p. (s p).lock o.null_free (o.locks p);
    }
