-- ===== src/System/Start.antt =====
-- What holds of the kernel that `KernelStart` leaves.
use yalnix_operating_system.Base.{
  ℕ, zero, suc, ◌+◌, ◌-◌, ◌≡◌, none, some, List, drop, set, replicate, null, [], ◌∷◌, arith,
}
use yalnix_operating_system.LinkedList.{init_list, add_to_list}
use yalnix_operating_system.Kernel.Switch.{kernel_stack_page}
use yalnix_operating_system.Memory.Pointers.{page_size, vmem_1_limit, region_pages}
use yalnix_operating_system.Process.Fork.{new_process}
use yalnix_operating_system.Kernel.State.{Kernel}
use yalnix_operating_system.Kernel.Run.{
  M, ok, and_then-eq-ok, ◌>>=◌, ◌>>◌, get, load_proc, store_proc,
}
use yalnix_operating_system.Boot.{
  BootArgs, num_terminals, make_ttys, take_frame, init_tables, init_queues, make_idle, make_init,
  start_init, kernel_start, run_idle, no_page, rw_page,
}
use yalnix_operating_system.System.Tables.{Keeps, bind-Keeps, load_proc-Keeps}
use yalnix_operating_system.System.Programs.{load_program-Keeps}
use yalnix_operating_system.System.Numbers.{Numbered, Numbered-Same}
use yalnix_operating_system.System.Orderly.{Orderly, Orderly-Same}
use yalnix_operating_system.System.Spawn.{
  Spawned, Spawned-before, Spawned-after, Orderly-Spawned, Numbered-Spawned, new_process-Spawned,
}

-- Behind `m`, which started where `P` holds, `Q` holds.
abbrev Leads : {A : Type 0} → (Kernel → Type 0) → M A → (Kernel → Type 0) → Type 0
Leads {A} P m Q = (k : Kernel) (a : A) (k' : Kernel) → m k ≡ ok a k' → P k → Q k'

Leads-bind :
    {A B : Type 0} (P Q R : Kernel → Type 0) (m : M A) (f : A → M B)
    → Leads P m Q
    → ((a : A) → Leads Q (f a) R)
    → Leads P (m >>= f) R
Leads-bind P Q R m f hm hf k b k' h p =
    let (a, k₁, e, rest) = and_then-eq-ok (m k) f h in hf a k₁ b k' rest (hm k a k₁ e p)

module _ (at : ℕ) where
  take_frame-Keeps : Keeps at take_frame
  unfolding take_frame
  take_frame-Keeps k a k' h = ground arith

  start_init-Keeps : (a : BootArgs) (args : List (List ℕ)) → Keeps at (start_init a args)
  unfolding start_init
  start_init-Keeps a [] k x k' h = ground arith
  start_init-Keeps a (name ∷ args) k x k' h = grind (arith, load_program-Keeps at)

  run_idle-Keeps : (a : BootArgs) → Keeps at (run_idle a)
  unfolding run_idle
  run_idle-Keeps a k x k' h = ground arith

  -- The rest of the making of the idle process, and of `init`.
  abbrev idle_rest : BootArgs → ℕ → M (Unit {0})
  idle_rest a idle = do
    f1 ← take_frame
    f2 ← take_frame
    k ← get
    c ← load_proc idle
    let u = c.uc
    store_proc idle (record c {
      uc = record u { pc = a.do_idle; sp = vmem_1_limit - page_size };
      kc_set = 1;
      parent = null;
      region0_pt = drop kernel_stack_page k.r0_pagetable;
      region1_pt =
          set (set (replicate region_pages no_page) (region_pages - 1) (rw_page f1))
            (region_pages - 2) (rw_page f2);
    })

  idle_rest-Keeps : (a : BootArgs) (p : ℕ) → Keeps at (idle_rest a p)
  idle_rest-Keeps a p k x k' h = grind (arith, take_frame-Keeps)

  make_idle-Spawned :
      (a : BootArgs) (k : Kernel) (x : Unit {0}) (k' : Kernel)
      → make_idle a k ≡ ok x k'
      → Spawned a.idle_proc at k k'
  unfolding make_idle
  make_idle-Spawned a k x k' h =
      let (p, k₁, e, rest) = and_then-eq-ok (new_process a.idle_proc a.idle_junk a.uctxt k) _ h in
      let (which, spawned) = new_process-Spawned at a.idle_proc a.idle_junk a.uctxt k p k₁ e in
      Spawned-after a.idle_proc at spawned (idle_rest-Keeps a p k₁ x k' rest)

  abbrev init_stored : BootArgs → (init f1 f2 : ℕ) → M (Unit {0})
  init_stored a init f1 f2 = do
    c ← load_proc init
    store_proc init (record c {
      region0_pt = rw_page f1 ∷ rw_page f2 ∷ [];
      region1_pt = replicate region_pages no_page;
      parent = a.idle_proc;
    })
    idle' ← load_proc a.idle_proc
    store_proc a.idle_proc (record idle' { children = some (add_to_list init_list init c.proc_id) })

  init_stored-Keeps : (a : BootArgs) (p f1 f2 : ℕ) → Keeps at (init_stored a p f1 f2)
  init_stored-Keeps a p f1 f2 k x k' h = ground arith

  init_rest-Keeps :
      (a : BootArgs) (p : ℕ) → Keeps at (do f1 ← take_frame; f2 ← take_frame; init_stored a p f1 f2)
  init_rest-Keeps a p =
      bind-Keeps at take_frame _ take_frame-Keeps
        (λ f1. bind-Keeps at take_frame _ take_frame-Keeps (λ f2. init_stored-Keeps a p f1 f2))

  make_init-Spawned :
      (a : BootArgs) (k : Kernel) (x : Unit {0}) (k' : Kernel)
      → make_init a k ≡ ok x k'
      → Spawned a.init_proc at k k'
  unfolding make_init
  make_init-Spawned a k x k' h =
      let (idle, k₁, e₁, h₁) = and_then-eq-ok (load_proc a.idle_proc k) _ h in
      let (p, k₂, e₂, h₂) = and_then-eq-ok (new_process a.init_proc a.init_junk idle.uc k₁) _ h₁ in
      let (which, spawned) = new_process-Spawned at a.init_proc a.init_junk idle.uc k₁ p k₂ e₂ in
      Spawned-after a.init_proc at
        (Spawned-before a.init_proc at (load_proc-Keeps at a.idle_proc k idle k₁ e₁) spawned)
        (init_rest-Keeps a p k₂ x k' h₂)

-- The memory of a machine that has just been switched on has no control block and no lock.
pub record PowerOn (k : Kernel) : Type 0 where
  pub procs : (p : ℕ) → k.procs p ≡ none
  pub locks : (p : ℕ) → k.lock_at p ≡ none

-- No process and no lock yet.
record Blank (k : Kernel) : Type 0 where
  next_pid : k.available_process_id ≡ 0
  procs : (p : ℕ) → k.procs p ≡ none
  locks : (p : ℕ) → k.lock_at p ≡ none

init_queues-Blank : (a : BootArgs) → Leads PowerOn (init_queues a) Blank
unfolding init_queues
init_queues-Blank a k x k' h on = record {
  next_pid = ground arith;
  procs = λ p. ground (arith, on.procs p);
  locks = λ p. ground (arith, on.locks p);
}

make_ttys-Blank : (tty : ℕ → ℕ) (n i : ℕ) → Leads Blank (make_ttys tty n i) Blank
unfolding make_ttys
make_ttys-Blank tty zero i k x k' h is = record {
  next_pid = ground (arith, is.next_pid);
  procs = λ p. ground (arith, is.procs p);
  locks = λ p. ground (arith, is.locks p);
}
make_ttys-Blank tty (suc n) i k x k' h is =
    make_ttys-Blank tty n (i + 1) _ x k' h
      (record { next_pid = is.next_pid; procs = is.procs; locks = is.locks })

init_tables-Numbered : (a : BootArgs) → Leads (λ k. Unit {0}) (init_tables a) (λ k. Numbered 0 k)
unfolding init_tables
init_tables-Numbered a k x k' h is = ground arith

init_tables-Orderly : (a : BootArgs) → Leads Blank (init_tables a) (λ k. Orderly 0 0 k)
unfolding init_tables
init_tables-Orderly a k x k' h is = record {
  tables = init_tables-Numbered a k x k' h tt;
  next_pid = ground (arith, is.next_pid);
  null_free = ground (arith, is.procs null);
  below = λ p. ground (arith, is.procs p);
  distinct = λ p q ne. ground (arith, is.procs p, is.procs q);
  locks = λ p. ground (arith, is.locks p);
}

-- The two processes, and the rest of the boot.
module _ (a : BootArgs) where
  abbrev boot_rest : M (Unit {0})
  boot_rest = do start_init a a.cmd_args; run_idle a

  boot_rest-Keeps : (at : ℕ) → Keeps at boot_rest
  boot_rest-Keeps at =
      bind-Keeps at (start_init a a.cmd_args) _ (start_init-Keeps at a a.cmd_args)
        (λ _. run_idle-Keeps at a)

  processes-Numbered :
      Leads (λ k. Numbered 0 k) (make_idle a >> (make_init a >> boot_rest)) (λ k. Numbered 0 k)
  processes-Numbered =
      Leads-bind (λ k. Numbered 0 k) (λ k. Numbered 0 k) (λ k. Numbered 0 k) (make_idle a) _
        (λ k x k' h is. Numbered-Spawned (make_idle-Spawned null a k x k' h) is)
        (λ _.
          Leads-bind (λ k. Numbered 0 k) (λ k. Numbered 0 k) (λ k. Numbered 0 k) (make_init a) _
            (λ k x k' h is. Numbered-Spawned (make_init-Spawned null a k x k' h) is)
            (λ _ k x k' h is. Numbered-Same (boot_rest-Keeps null k x k' h) is))

  processes-Orderly :
      Leads (λ k. Orderly 0 0 k) (make_idle a >> (make_init a >> boot_rest)) (λ k. Orderly 0 2 k)
  processes-Orderly =
      Leads-bind (λ k. Orderly 0 0 k) (λ k. Orderly 0 1 k) (λ k. Orderly 0 2 k) (make_idle a) _
        (λ k x k' h o. Orderly-Spawned (omega arith) (λ at. make_idle-Spawned at a k x k' h) o)
        (λ _.
          Leads-bind (λ k. Orderly 0 1 k) (λ k. Orderly 0 2 k) (λ k. Orderly 0 2 k) (make_init a) _
            (λ k x k' h o. Orderly-Spawned (omega arith) (λ at. make_init-Spawned at a k x k' h) o)
            (λ _ k x k' h o. Orderly-Same (λ at. boot_rest-Keeps at k x k' h) o))

  -- The boot, whose first three parts leave what `Q` says.
  kernel_start-Leads :
      (P Q R S : Kernel → Type 0)
      → Leads P (init_queues a) Q
      → Leads Q (make_ttys a.tty num_terminals 0) Q
      → Leads Q (init_tables a) R
      → Leads R (make_idle a >> (make_init a >> boot_rest)) S
      → Leads P (kernel_start a) S
  unfolding kernel_start
  kernel_start-Leads P Q R S queues ttys tables processes =
      Leads-bind P Q S (init_queues a) _ queues (λ _.
        Leads-bind Q Q S (make_ttys a.tty num_terminals 0) _ ttys
          (λ _. Leads-bind Q R S (init_tables a) _ tables (λ _. processes)))

  pub kernel_start-Numbered : Leads (λ k. Unit {0}) (kernel_start a) (λ k. Numbered 0 k)
  kernel_start-Numbered =
      kernel_start-Leads (λ k. Unit) (λ k. Unit) (λ k. Numbered 0 k) (λ k. Numbered 0 k)
        (λ k x k' h is. tt) (λ k x k' h is. tt) (init_tables-Numbered a) processes-Numbered

  pub kernel_start-Orderly : Leads PowerOn (kernel_start a) (λ k. Orderly 0 2 k)
  kernel_start-Orderly =
      kernel_start-Leads PowerOn Blank (λ k. Orderly 0 0 k) (λ k. Orderly 0 2 k)
        (init_queues-Blank a) (make_ttys-Blank a.tty num_terminals 0) (init_tables-Orderly a)
        processes-Orderly
