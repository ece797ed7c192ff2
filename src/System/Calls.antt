-- ===== src/System/Calls.antt =====
-- The two invariants of the kernel: how objects are numbered, and how processes and locks are as well.
use yalnix_operating_system.Base.{ℕ, suc, ◌+◌, ◌<◌, ◌^◌, ◌≡◌, arith, null}
use yalnix_operating_system.Kernel.State.{Kernel}
use yalnix_operating_system.Kernel.Run.{ok}
use yalnix_operating_system.Sync.Locks.{lock_init}
use yalnix_operating_system.Sync.Cvars.{cvar_init}
use yalnix_operating_system.Sync.Pipes.{pipe_init}
use yalnix_operating_system.Sync.Reclaim.{reclaim}
use yalnix_operating_system.System.Numbers.{
  Numbered, Numbered-Same, Numbered-suc, lock_init-Numbered, cvar_init-Numbered, pipe_init-Numbered,
  reclaim-Numbered,
}
use yalnix_operating_system.System.Spawn.{Orderly-Spawned}
use yalnix_operating_system.System.Orderly.{
  Orderly, SameOthers, Orderly-Same, Orderly-Others, Orderly-more, Orderly-more_objects,
  Orderly-suc,
}
use yalnix_operating_system.System.Spawn.{Orderly-Spawned, Numbered-Spawned}
use yalnix_operating_system.System.Fork.{fork-Spawned}
use yalnix_operating_system.System.Invariant.{Invariant}

pub lock_init-Others :
    (at fresh ptr : ℕ) (k : Kernel) (a : ℕ) (k' : Kernel)
    → lock_init fresh ptr k ≡ ok a k'
    → SameOthers at k k'
unfolding lock_init
lock_init-Others at fresh ptr k a k' h = ground arith

pub cvar_init-Others :
    (at fresh ptr : ℕ) (k : Kernel) (a : ℕ) (k' : Kernel)
    → cvar_init fresh ptr k ≡ ok a k'
    → SameOthers at k k'
unfolding cvar_init
cvar_init-Others at fresh ptr k a k' h = ground arith

pub pipe_init-Others :
    (at fresh fresh_buf ptr : ℕ) (k : Kernel) (a : ℕ) (k' : Kernel)
    → pipe_init fresh fresh_buf ptr k ≡ ok a k'
    → SameOthers at k k'
unfolding pipe_init
pipe_init-Others at fresh fresh_buf ptr k a k' h = ground arith

pub reclaim-Others :
    (at id : ℕ) (k : Kernel) (a : ℕ) (k' : Kernel) → reclaim id k ≡ ok a k' → SameOthers at k k'
unfolding reclaim
reclaim-Others at id k a k' h = ground arith

unfoldable pub numbered : Invariant
numbered = record {
  fits = λ n. n < 2 ^ 32;
  holds = λ n k. Numbered n k;
  same = λ s is. Numbered-Same (s null) is;
  more = Numbered-suc;
  lock_init = lock_init-Numbered;
  cvar_init = cvar_init-Numbered;
  pipe_init = pipe_init-Numbered;
  reclaim = reclaim-Numbered;
  fork = λ m n k a k' small h is. Numbered-suc (Numbered-Spawned (fork-Spawned null m k a k' h) is);
}

-- After n steps from a boot, which makes two processes.
unfoldable pub orderly : Invariant
orderly = record {
  fits = λ n. n + 2 < 2 ^ 32;
  holds = λ n k. Orderly n (suc (suc n)) k;
  same = Orderly-Same;
  more = λ o. Orderly-suc o;
  lock_init = λ fresh ptr n k a k' small h o. Orderly-more (
      Orderly-Others (λ at. lock_init-Others at fresh ptr k a k' h)
        (lock_init-Numbered fresh ptr n k a k' (omega (arith, small)) h o.tables) o);
  cvar_init = λ fresh ptr n k a k' small h o. Orderly-more (
      Orderly-Others (λ at. cvar_init-Others at fresh ptr k a k' h)
        (cvar_init-Numbered fresh ptr n k a k' (omega (arith, small)) h o.tables) o);
  pipe_init = λ fresh fresh_buf ptr n k a k' small h o. Orderly-more (
      Orderly-Others (λ at. pipe_init-Others at fresh fresh_buf ptr k a k' h)
        (pipe_init-Numbered fresh fresh_buf ptr n k a k' (omega (arith, small)) h o.tables) o);
  reclaim = λ id n k a k' small h o. Orderly-more (
      Orderly-Others (λ at. reclaim-Others at id k a k' h)
        (reclaim-Numbered id n k a k' (omega (arith, small)) h o.tables) o);
  fork = λ m n k a k' small h o. Orderly-more_objects (
      Orderly-Spawned {c = suc (suc n)} (omega (arith, small)) (λ at. fork-Spawned at m k a k' h)
        o);
}
