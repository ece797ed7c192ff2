-- ===== src/Kernel/Run.antt =====
-- Commands over the kernel's state. A command ends normally, faults (a pointer that is NULL,
-- dangling or out of bounds is followed), stops the machine by `exit`, or runs for ever.
use yalnix_operating_system.Base.{
  ℕ, Option, none, some, List, ◌∷◌, update, Bool, true, false, ◌≡◌, refl, arith,
}
use yalnix_operating_system.LinkedList.{add_to_list}
use yalnix_operating_system.Kernel.State.{
  Kernel, Pcb, Lock, Cvar, Pipe, Tty, Event, int_stored, bytes_stored,
}

pub data Run {ℓ} (A : Type ℓ) : Type ℓ where
  ok : A → Kernel → Run A
  fault : Run A
  exits : ℕ → Run A
  hangs : Run A

abbrev pub is_ok {ℓ} : {A : Type ℓ} → Run A → Bool
is_ok (ok a k) = true
is_ok _ = false

pub is_ok-ok : (r : Run (Unit {0})) → is_ok r ≡ true → (k : Kernel) × (r ≡ ok tt k)
is_ok-ok (ok tt k) h = (k, refl)
is_ok-ok fault h = cc
is_ok-ok (exits c) h = cc
is_ok-ok hangs h = cc

abbrev pub M : Type 0 → Type 0
M A = Kernel → Run A

abbrev pub and_then : {A B : Type 0} → Run A → (A → M B) → Run B
and_then (ok a k) f = f a k
and_then fault f = fault
and_then (exits c) f = exits c
and_then hangs f = hangs

-- Inversion of a sequence that ends normally, for proofs where its parts stay shut.
pub and_then-eq-ok :
    {A B : Type 0} (r : Run A) (f : A → M B) {b : B} {k' : Kernel}
    → and_then r f ≡ ok b k'
    → (a : A) × (k : Kernel) × (r ≡ ok a k) × (f a k ≡ ok b k')
and_then-eq-ok (ok a k) f h = (a, k, refl, h)
and_then-eq-ok fault f h = cc
and_then-eq-ok (exits c) f h = cc
and_then-eq-ok hangs f h = cc

infixl 5 ◌>>=◌ ◌>>◌
abbrev pub ◌>>=◌ : {A B : Type 0} → M A → (A → M B) → M B
m >>= f = λ k. and_then (m k) f

abbrev pub ◌>>◌ : {B : Type 0} → M (Unit {0}) → M B → M B
m >> n = m >>= λ _. n

abbrev pub pure : {A : Type 0} → A → M A
pure = ok

abbrev pub get : M Kernel
get k = ok k k

abbrev pub put : Kernel → M (Unit {0})
put k' k = ok tt k'

abbrev pub crash : {A : Type 0} → M A
crash k = fault

abbrev pub stop : {A : Type 0} → ℕ → M A
stop code k = exits code

abbrev pub from : {A : Type 0} → Option A → M A
from none = crash
from (some a) = pure a

pub from-eq-ok :
    {A : Type 0} (o : Option A) {a : A} {k k' : Kernel}
    → from o k ≡ ok a k'
    → (o ≡ some a) × (k' ≡ k)
from-eq-ok none e = cc
from-eq-ok (some b) e = (ground arith, ground arith)

-- What a handler does: return to user mode with a value (`none` where the C leaves it
-- indeterminate), or run on in another process.
pub data Outcome : Type 0 where
  returns : Option ℕ → Outcome
  switched : Outcome

-- `p->f` read, and `*p = v` written back, through a pointer to an allocated object.
abbrev pub load_proc : ℕ → M Pcb
load_proc p = do k ← get; from (k.procs p)

abbrev pub store_proc : ℕ → Pcb → M (Unit {0})
store_proc p v = do k ← get; put (record k { procs = update k.procs p (some v) })

abbrev pub load_lock : ℕ → M Lock
load_lock p = do k ← get; from (k.lock_at p)

abbrev pub store_lock : ℕ → Lock → M (Unit {0})
store_lock p v = do k ← get; put (record k { lock_at = update k.lock_at p (some v) })

abbrev pub load_cvar : ℕ → M Cvar
load_cvar p = do k ← get; from (k.cvar_at p)

abbrev pub store_cvar : ℕ → Cvar → M (Unit {0})
store_cvar p v = do k ← get; put (record k { cvar_at = update k.cvar_at p (some v) })

abbrev pub load_pipe : ℕ → M Pipe
load_pipe p = do k ← get; from (k.pipe_at p)

abbrev pub store_pipe : ℕ → Pipe → M (Unit {0})
store_pipe p v = do k ← get; put (record k { pipe_at = update k.pipe_at p (some v) })

abbrev pub load_tty : ℕ → M Tty
load_tty p = do k ← get; from (k.tty_at p)

abbrev pub store_tty : ℕ → Tty → M (Unit {0})
store_tty p v = do k ← get; put (record k { tty_at = update k.tty_at p (some v) })

abbrev pub emit : Event → M (Unit {0})
emit e = do k ← get; put (record k { log = e ∷ k.log })

-- `*ptr = value`, `ptr` in the memory of the running process.
abbrev pub store_int : ℕ → ℕ → M (Unit {0})
store_int ptr value = do k ← get; emit (int_stored k.curr_proc ptr value)

abbrev pub store_bytes : ℕ → List ℕ → M (Unit {0})
store_bytes ptr bytes = do k ← get; emit (bytes_stored k.curr_proc ptr bytes)

-- `add_to_list(ready_procs, proc, id)`.
abbrev pub make_ready : ℕ → ℕ → M (Unit {0})
make_ready p id = do k ← get; put (record k { ready_procs = add_to_list k.ready_procs p id })
