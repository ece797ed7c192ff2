-- ===== src/Dispatch.antt =====
-- `HANDLE_TRAP_KERNEL` and the interrupt vector of src/traps.c and src/kernel.c, and how a process
-- that was switched out goes on.
mod Codes
pub mod Refused
pub mod Breaks
unfoldable pub use Codes.*
use yalnix_operating_system.Base.{
  ℕ, ◌+◌, Bool, true, ◌||◌, Option, none, some, List, if◌then◌else◌, ◌==◌, get_elem?, set, update,
  error, success,
}
use yalnix_operating_system.Kernel.State.{
  Rest, after_clock, after_fork, after_wait, after_delay, after_tty_write, after_tty_read,
  after_acquire, after_cvar_wait, after_cvar_acquire, after_pipe_read,
}
use yalnix_operating_system.Kernel.Run.{
  M, Outcome, returns, switched, ◌>>=◌, ◌>>◌, pure, get, put, from,
}
use yalnix_operating_system.Kernel.Switch.{finish_context_switch}
use yalnix_operating_system.Memory.Pointers.{chk_range, chk_valid, chk_rw, chk_str}
use yalnix_operating_system.Memory.Brk.{brk}
use yalnix_operating_system.Process.Blocks.{delay}
use yalnix_operating_system.Process.Clock.{handle_trap_clock}
use yalnix_operating_system.Process.Wait.{wait, wait_resumed}
use yalnix_operating_system.Process.Exit.{exit}
use yalnix_operating_system.Process.Fork.{Mallocs, fork, fork_resumed}
use yalnix_operating_system.Program.Exec.{ExecArgs, exec}
use yalnix_operating_system.Sync.Locks.{lock_init, acquire, release}
use yalnix_operating_system.Sync.Cvars.{
  cvar_init, cvar_signal, cvar_broadcast, cvar_wait, cvar_wait_resumed,
}
use yalnix_operating_system.Sync.Pipes.{pipe_init, pipe_read, pipe_read_resumed, pipe_write}
use yalnix_operating_system.Sync.Reclaim.{reclaim}
use yalnix_operating_system.Terminal.{
  tty_write, tty_read, tty_read_resumed, handle_trap_tty_receive, handle_trap_tty_transmit,
}
use yalnix_operating_system.Trap.{
  get_pid, handle_trap_illegal, handle_trap_math, handle_trap_memory,
}

-- What a call finds outside the kernel: what `malloc` returns, the memory behind a buffer, the value of
-- the local variable of `Yalnix_TtyRead` that is never set, and what an exec finds.
pub record Outside : Type 0 where
  pub mallocs : Mallocs
  pub fresh : ℕ
  pub fresh_buf : ℕ
  pub memory : List ℕ
  pub junk : ℕ
  pub exec_args : ExecArgs

abbrev pub value : M ℕ → M Outcome
value m = do v ← m; pure (returns (some v))

abbrev pub refuse : M Outcome
refuse = pure (returns (some error))

-- The three checks in a row that guard a call whose argument is a pointer.
unfoldable pub guarded : (ptr : ℕ) → M Outcome → M Outcome
guarded ptr call = if chk_range ptr == 1 then refuse else do
  invalid ← chk_valid ptr
  if invalid == 1 then refuse else do denied ← chk_rw ptr; if denied == 1 then refuse else call

-- `chk(p) || chk(q)`: the second check is made only if the first finds no fault.
abbrev pub either : M ℕ → M ℕ → M Bool
either m n = do a ← m; if a == 1 then pure true else do b ← n; pure (b == 1)

unfoldable pub guarded_two : (p q : ℕ) → M Outcome → M Outcome
guarded_two p q call = if chk_range p == 1 || chk_range q == 1 then refuse else do
  invalid ← either (chk_valid p) (chk_valid q)
  if invalid
      then refuse
      else do denied ← either (chk_rw p) (chk_rw q); if denied then refuse else call

unfoldable pub guarded_text : (ptr len : ℕ) → M Outcome → M Outcome
guarded_text ptr len call = do bad ← chk_str ptr len; if bad == 0 then call else refuse

-- The branches of the `switch`, on the first three argument registers.
unfoldable pub serve : Outside → Syscall → (r0 r1 r2 : ℕ) → M Outcome
serve o yalnix_fork r0 r1 r2 = fork o.mallocs
serve o yalnix_exec r0 r1 r2 = guarded_two r0 r1 (value (exec o.exec_args))
serve o yalnix_exit r0 r1 r2 = exit o.fresh r0
serve o yalnix_wait r0 r1 r2 = guarded r0 (wait r0)
serve o yalnix_getpid r0 r1 r2 = value get_pid
serve o yalnix_brk r0 r1 r2 = guarded r0 (value (brk r0))
serve o yalnix_delay r0 r1 r2 = delay r0
serve o yalnix_tty_write r0 r1 r2 = guarded_text r1 r2 (tty_write r0 o.memory r2)
serve o yalnix_tty_read r0 r1 r2 = guarded_text r1 r2 (tty_read o.junk r0 r1 r2)
serve o yalnix_cvar_init r0 r1 r2 = value (cvar_init o.fresh r0)
serve o yalnix_cvar_signal r0 r1 r2 = value (cvar_signal r0)
serve o yalnix_cvar_broadcast r0 r1 r2 = value (cvar_broadcast r0)
serve o yalnix_cvar_wait r0 r1 r2 = cvar_wait r0 r1
serve o yalnix_lock_init r0 r1 r2 = guarded r0 (value (lock_init o.fresh r0))
serve o yalnix_lock_acquire r0 r1 r2 = acquire after_acquire r0
serve o yalnix_lock_release r0 r1 r2 = value (release r0)
serve o yalnix_pipe_init r0 r1 r2 = guarded r0 (value (pipe_init o.fresh o.fresh_buf r0))
serve o yalnix_pipe_read r0 r1 r2 = guarded_text r1 r2 (pipe_read r0 r1 r2)
serve o yalnix_pipe_write r0 r1 r2 = guarded_text r1 r2 (value (pipe_write r0 o.memory r2))
serve o yalnix_reclaim r0 r1 r2 = value (reclaim r0)
serve o unrecognized r0 r1 r2 = pure (returns none)

abbrev or_junk : Option ℕ → ℕ → ℕ
or_junk none junk = junk
or_junk (some v) junk = v

-- `uc->regs[0] = retval`, where `junk` is what `retval` holds if nothing has set it. A process that has
-- been switched out does this when it goes on.
unfoldable pub set_retval : (junk : ℕ) → Outcome → M Outcome
set_retval junk switched = pure switched
set_retval junk (returns v) = do
  k ← get
  u ← from (k.frame_at k.curr_proc)
  put (record k {
    frame_at =
        update k.frame_at k.curr_proc (some (record u { regs = set u.regs 0 (or_junk v junk) }));
  })
  pure (returns v)

unfoldable pub handle_trap_kernel : Outside → (retval : ℕ) → M Outcome
handle_trap_kernel o retval = do
  k ← get
  u ← from (k.frame_at k.curr_proc)
  r0 ← from (get_elem? u.regs 0)
  r1 ← from (get_elem? u.regs 1)
  r2 ← from (get_elem? u.regs 2)
  outcome ← serve o (syscall_of u.code) r0 r1 r2
  set_retval retval outcome

-- The rest of a handler, behind `perform_context_switch`.
unfoldable pub finish : (retval : ℕ) → Rest → M Outcome
finish retval after_clock = pure (returns none)
finish retval (after_fork parent child) = do
  rc ← fork_resumed parent child
  set_retval retval (returns (some rc))
finish retval (after_wait parent status_ptr) = do
  rc ← wait_resumed parent status_ptr
  set_retval retval (returns (some rc))
finish retval after_delay = set_retval retval (returns (some success))
finish retval (after_tty_write len) = set_retval retval (returns (some len))
finish retval (after_tty_read tty buf len) = do
  rc ← tty_read_resumed tty buf len
  set_retval retval (returns (some rc))
finish retval after_acquire = set_retval retval (returns (some success))
finish retval (after_cvar_wait lock) = do
  outcome ← cvar_wait_resumed lock
  set_retval retval outcome
finish retval after_cvar_acquire = set_retval retval (returns none)
finish retval (after_pipe_read pipe buf len) = do
  rc ← pipe_read_resumed pipe buf len
  set_retval retval (returns (some rc))

-- The process that has been switched to goes on where it was.
unfoldable pub resume : (retval : ℕ) → M Outcome
resume retval = do
  k ← get
  p ← from (k.point_at k.curr_proc)
  finish_context_switch p.uc
  finish retval p.rest

-- The entries of `interrupt_vector`, with what their handlers find outside the kernel.
pub data Trap : Type 0 where
  trap_kernel : Outside → (retval : ℕ) → Trap
  trap_clock : Trap
  trap_illegal : (fresh : ℕ) → Trap
  trap_memory : (fresh beyond : ℕ) → Trap
  trap_math : (fresh : ℕ) → Trap
  trap_tty_receive : (fresh id : ℕ) → (received junk : List ℕ) → Trap
  trap_tty_transmit : (wild : List ℕ) → (id : ℕ) → Trap
  trap_disk : Trap

unfoldable pub interrupt_vector : Trap → M Outcome
interrupt_vector (trap_kernel o retval) = handle_trap_kernel o retval
interrupt_vector trap_clock = handle_trap_clock
interrupt_vector (trap_illegal fresh) = handle_trap_illegal fresh
interrupt_vector (trap_memory fresh beyond) = handle_trap_memory fresh beyond
interrupt_vector (trap_math fresh) = handle_trap_math fresh
interrupt_vector (trap_tty_receive fresh id received junk) = do
  handle_trap_tty_receive fresh id received junk
  pure (returns none)
interrupt_vector (trap_tty_transmit wild id) = do
  handle_trap_tty_transmit wild id
  pure (returns none)
interrupt_vector trap_disk = pure (returns none)
