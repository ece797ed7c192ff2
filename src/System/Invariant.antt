-- ===== src/System/Invariant.antt =====
-- What an invariant of the whole kernel is, for the traps: a property of the kernel and of the number of
-- steps it has taken.
use yalnix_operating_system.Base.{ℕ, suc, ◌≡◌, Bool, true, false, if◌then◌else◌}
use yalnix_operating_system.Kernel.State.{Kernel}
use yalnix_operating_system.Kernel.Run.{M, ok, and_then-eq-ok, ◌>>=◌}
use yalnix_operating_system.Process.Fork.{Mallocs, fork}
use yalnix_operating_system.Sync.Locks.{lock_init}
use yalnix_operating_system.Sync.Cvars.{cvar_init}
use yalnix_operating_system.Sync.Pipes.{pipe_init}
use yalnix_operating_system.Sync.Reclaim.{reclaim}
use yalnix_operating_system.System.Tables.{SameTables, Keeps}

-- A command that takes `holds` one step further, as long as the number of steps fits.
abbrev pub Counted : (ℕ → Type 0) → (ℕ → Kernel → Type 0) → {A : Type 0} → M A → Type 0
Counted fits holds {A} m =
    (n : ℕ) (k : Kernel) (a : A) (k' : Kernel)
    → fits (suc n)
    → m k ≡ ok a k'
    → holds n k
    → holds (suc n) k'

-- The calls that make or free an object or a process keep it; the others need only leave the tables alone.
pub record Invariant : Type 1 where
  pub fits : ℕ → Type 0
  pub holds : ℕ → Kernel → Type 0
  pub same : {n : ℕ} {k k' : Kernel} → ((at : ℕ) → SameTables at k k') → holds n k → holds n k'
  pub more : {n : ℕ} {k : Kernel} → holds n k → holds (suc n) k
  pub lock_init : (fresh ptr : ℕ) → Counted fits holds (lock_init fresh ptr)
  pub cvar_init : (fresh ptr : ℕ) → Counted fits holds (cvar_init fresh ptr)
  pub pipe_init : (fresh fresh_buf ptr : ℕ) → Counted fits holds (pipe_init fresh fresh_buf ptr)
  pub reclaim : (id : ℕ) → Counted fits holds (reclaim id)
  pub fork : (m : Mallocs) → Counted fits holds (fork m)

abbrev pub Counts : Invariant → {A : Type 0} → M A → Type 0
Counts I m = Counted I.fits I.holds m

module _ (I : Invariant) where
  pub Keeps-Counts : {A : Type 0} (m : M A) → ((at : ℕ) → Keeps at m) → Counts I m
  Keeps-Counts m keeps n k a k' small h o = I.more (I.same (λ at. keeps at k a k' h) o)

  pub Counts-bind :
      {A B : Type 0} (m : M A) (f : A → M B)
      → Counts I m
      → ((at : ℕ) (a : A) → Keeps at (f a))
      → Counts I (m >>= f)
  Counts-bind m f cm kf n k a k' small h o =
      let (x, k₁, e, rest) = and_then-eq-ok (m k) f h in
      I.same (λ at. kf at x k₁ a k' rest) (cm n k x k₁ small e o)

  pub bind-Counts :
      {A B : Type 0} (m : M A) (f : A → M B)
      → ((at : ℕ) → Keeps at m)
      → ((a : A) → Counts I (f a))
      → Counts I (m >>= f)
  bind-Counts m f km cf n k a k' small h o =
      let (x, k₁, e, rest) = and_then-eq-ok (m k) f h in
      cf x n k₁ a k' small rest (I.same (λ at. km at k x k₁ e) o)

  pub if-Counts :
      {A : Type 0} (t : Bool) (m n : M A) → Counts I m → Counts I n → Counts I (if t then m else n)
  if-Counts true m n hm hn = hm
  if-Counts false m n hm hn = hn
