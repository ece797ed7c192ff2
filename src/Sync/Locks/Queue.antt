-- ===== src/Sync/Locks/Queue.antt =====
-- A lock as a queue of identifiers: the holder, then those that wait.
use yalnix_operating_system.Base.{
  ℕ, ◌≡◌, ◌≢◌, some, List, [], ◌∷◌, ◌++◌, if◌then◌else◌, ◌==◌, error, success, take,
}
use yalnix_operating_system.LinkedList.{NodeList}
use yalnix_operating_system.Kernel.State.{Kernel, Lock}
use yalnix_operating_system.Kernel.Run.{Outcome, returns, switched}
use yalnix_operating_system.Kernel.Procs.{ids, AllProcs}

pub data Answer : Type 0 where
  granted waiting refused : Answer

-- The holder asks again in vain or with no need; others queue up.
abbrev pub enter : ℕ → List ℕ → List ℕ × Answer
enter p [] = (p ∷ [], granted)
enter p (q ∷ qs) = if q == p then (q ∷ qs, granted) else (q ∷ (qs ++ p ∷ []), waiting)

-- Only the holder may leave, and the next in line holds the lock then.
abbrev pub leave : ℕ → List ℕ → List ℕ × Answer
leave p [] = ([], refused)
leave p (q ∷ qs) = if q == p then (qs, granted) else (q ∷ qs, refused)

abbrev pub outcome : Answer → Outcome
outcome granted = returns (some success)
outcome waiting = switched
outcome refused = returns (some error)

abbrev pub reply : Answer → ℕ
reply refused = error
reply _ = success

abbrev pub queue_of : Lock → List ℕ
queue_of lock = if lock.is_claimed == 0 then [] else lock.owner_id ∷ ids lock.waiters

pub record IsLock (k : Kernel) (lock : Lock) : Type 0 where
  pub idle : lock.is_claimed ≡ 0 → (lock.owner_id ≡ error) × (lock.waiters ≡ [])
  pub procs : AllProcs k lock.waiters

-- What a call on the lock at `l` leaves behind: a lock with queue `q`, and all others as they were.
pub record Leaves (k k' : Kernel) (l : ℕ) (q : List ℕ) : Type 0 where
  pub lock : Lock
  pub stored : k'.lock_at l ≡ some lock
  pub queue : queue_of lock ≡ q
  pub is_lock : IsLock k' lock
  pub others : (p : ℕ) → p ≢ l → k'.lock_at p ≡ k.lock_at p

-- The node of the process that a successful release lets run.
abbrev pub woken : Lock → Answer → NodeList
woken lock granted = take 1 lock.waiters
woken lock _ = []
