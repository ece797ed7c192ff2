-- ===== src/System/Machine.antt =====
-- The machine: a process runs user code until a trap, or a process that was switched to goes on in the
-- kernel. The hardware saves the user context on the running process's kernel stack at a trap.
use yalnix_operating_system.Base.{ℕ, zero, suc, ◌≤◌, ◌≡◌, Bool, true, false, some, arith, update}
use yalnix_operating_system.Kernel.State.{Kernel, UserContext}
use yalnix_operating_system.Kernel.Run.{Outcome, returns, switched, ok}
use yalnix_operating_system.Dispatch.{Trap, interrupt_vector, resume}
use yalnix_operating_system.System.Tables.{SameTables}
use yalnix_operating_system.System.Invariant.{Invariant}
use yalnix_operating_system.System.Resume.{resume-Keeps}
use yalnix_operating_system.System.Traps.{interrupt_vector-Counts}

pub record Machine : Type 0 where
  pub kernel : Kernel
  pub in_kernel : Bool

abbrev pub is_switched : Outcome → Bool
is_switched switched = true
is_switched (returns v) = false

-- The kernel's state once a trap has saved the user context `u`.
abbrev pub trapped : Kernel → UserContext → Kernel
trapped k u = record k { frame_at = update k.frame_at k.curr_proc (some u) }

pub data Step (m m' : Machine) : Type 0 where
  trap :
      (t : Trap) (u : UserContext) (o : Outcome) (k' : Kernel)
      → m.in_kernel ≡ false
      → interrupt_vector t (trapped m.kernel u) ≡ ok o k'
      → m' ≡ record { kernel = k'; in_kernel = is_switched o }
      → Step m m'
  go_on :
      (junk : ℕ) (o : Outcome) (k' : Kernel)
      → m.in_kernel ≡ true
      → resume junk m.kernel ≡ ok o k'
      → m' ≡ record { kernel = k'; in_kernel = is_switched o }
      → Step m m'

-- `n` steps lead from `m` to the machine.
pub data Reach (m : Machine) : ℕ → Machine → Type 0 where
  here : Reach m zero m
  next : {m₁ : Machine} {n : ℕ} {m₂ : Machine} → Reach m n m₁ → Step m₁ m₂ → Reach m (suc n) m₂

trapped-Same : (at : ℕ) (k : Kernel) (u : UserContext) → SameTables at k (trapped k u)
trapped-Same at k u = ground arith

module _ (I : Invariant) where
  Step-holds :
      (n : ℕ) (m m' : Machine)
      → I.fits (suc n)
      → Step m m'
      → I.holds n m.kernel
      → I.holds (suc n) m'.kernel
  Step-holds n m m' small (trap t u o k' user run e) is = rw e (
      interrupt_vector-Counts I t n (trapped m.kernel u) o k' small run
        (I.same (λ at. trapped-Same at m.kernel u) is))
  Step-holds n m m' small (go_on junk o k' kernel run e) is =
      rw e (I.more (I.same (λ at. resume-Keeps at junk m.kernel o k' run) is))

  pub Reach-holds :
      (n : ℕ) (m m' : Machine)
      → ((i : ℕ) → i ≤ n → I.fits i)
      → I.holds 0 m.kernel
      → Reach m n m'
      → I.holds n m'.kernel
  Reach-holds zero m m' small is here = is
  Reach-holds (suc n) m m' small is (next {m₁} r s) =
      Step-holds n m₁ m' (small (suc n) (omega arith)) s
        (Reach-holds n m m₁ (λ i le. small i (omega (arith, le))) is r)
