-- ===== src/System/Boot.antt =====
-- The kernel that `KernelStart` leaves, and what the machine makes of it.
use yalnix_operating_system.Base.{
  ℕ, suc, ◌+◌, ◌≤◌, ◌<◌, ◌^◌, ◌≡◌, ◌≢◌, true, false, Option, some, [], arith, error,
}
use yalnix_operating_system.Kernel.State.{Kernel, Pcb, Lock}
use yalnix_operating_system.Kernel.Run.{ok}
use yalnix_operating_system.Boot.{BootArgs, kernel_start}
use yalnix_operating_system.System.Numbers.{Numbered}
use yalnix_operating_system.System.Orderly.{Orderly, pids_differ}
use yalnix_operating_system.System.Calls.{numbered, orderly}
use yalnix_operating_system.System.Machine.{Machine, Reach, Reach-holds}
use yalnix_operating_system.System.Start.{PowerOn, kernel_start-Numbered, kernel_start-Orderly}

-- In every state that the machine reaches in n steps, fewer than 2^32, from a kernel that
-- `KernelStart` has booted, whatever traps come in whatever order, no identifier stands at two of
-- the locks, condition variables and pipes, every identifier in use is below the next one, and the
-- next one is at most n.
pub boot-Numbered :
    (a : BootArgs) (k k₁ : Kernel) (n : ℕ) (m : Machine)
    → n < 2 ^ 32
    → kernel_start a k ≡ ok tt k₁
    → Reach (record { kernel = k₁; in_kernel = false }) n m
    → Numbered n m.kernel
unfolding numbered
boot-Numbered a k k₁ n m small boot run =
    Reach-holds numbered n (record { kernel = k₁; in_kernel = false }) m
      (λ i le. omega (arith, le, small)) (kernel_start-Numbered a k tt k₁ boot tt) run

-- The whole invariant, in every reachable state.
boot-Orderly :
    (a : BootArgs) (k k₁ : Kernel) (n : ℕ) (m : Machine)
    → n + 2 < 2 ^ 32
    → PowerOn k
    → kernel_start a k ≡ ok tt k₁
    → Reach (record { kernel = k₁; in_kernel = false }) n m
    → Orderly n (suc (suc n)) m.kernel
unfolding orderly
boot-Orderly a k k₁ n m small on boot run =
    Reach-holds orderly n (record { kernel = k₁; in_kernel = false }) m
      (λ i le. omega (arith, le, small)) (kernel_start-Orderly a k tt k₁ boot on) run

pids_differ-some :
    (x y : Option Pcb) (c d : Pcb)
    → pids_differ x y ≡ true
    → x ≡ some c
    → y ≡ some d
    → c.proc_id ≢ d.proc_id
pids_differ-some x y c d e f g = ground (arith, e, f, g)

-- In every state that the machine reaches in n steps, with n + 2 below 2^32, from a kernel that
-- `KernelStart` has booted from a memory without control blocks and locks, whatever traps come in
-- whatever order, no two control blocks have the same process identifier, every process identifier
-- is below the next one, and the next one is at most n + 2.
pub boot-Pids :
    (a : BootArgs) (k k₁ : Kernel) (n : ℕ) (m : Machine)
    → n + 2 < 2 ^ 32
    → PowerOn k
    → kernel_start a k ≡ ok tt k₁
    → Reach (record { kernel = k₁; in_kernel = false }) n m
    → (m.kernel.available_process_id ≤ n + 2)
      × ((p : ℕ) (c : Pcb) → m.kernel.procs p ≡ some c → c.proc_id < m.kernel.available_process_id)
      × ((p q : ℕ) (c d : Pcb)
          → m.kernel.procs p ≡ some c
          → m.kernel.procs q ≡ some d
          → p ≢ q
          → c.proc_id ≢ d.proc_id)
boot-Pids a k k₁ n m small on boot run =
    let o = boot-Orderly a k k₁ n m small on boot run in
    (
      omega (arith, o.next_pid),
      λ p c here. ground (arith, o.below p, here),
      λ p q c d at_p at_q apart.
          pids_differ-some (m.kernel.procs p) (m.kernel.procs q) c d (o.distinct p q apart) at_p
            at_q,
    )

-- In every state that the machine reaches in n steps, with n + 2 below 2^32, from a kernel that
-- `KernelStart` has booted from a memory without control blocks and locks, whatever traps come in
-- whatever order, a lock that is not claimed has no owner, and no process waits for it.
pub boot-Locks :
    (a : BootArgs) (k k₁ : Kernel) (n : ℕ) (m : Machine)
    → n + 2 < 2 ^ 32
    → PowerOn k
    → kernel_start a k ≡ ok tt k₁
    → Reach (record { kernel = k₁; in_kernel = false }) n m
    → (p : ℕ) (l : Lock) → m.kernel.lock_at p ≡ some l
    → l.is_claimed ≡ 0
    → (l.owner_id ≡ error) × (l.waiters ≡ [])
boot-Locks a k k₁ n m small on boot run p l here free =
    let o = boot-Orderly a k k₁ n m small on boot run in ground (arith, o.locks p, here, free)
