-- ===== src/System/Resume.antt =====
-- A process that was switched out goes on, and the traps that abort a process: the tables are left alone.
use yalnix_operating_system.Base.{ℕ, true, none, some, arith, error, success, ◌==◌}
use yalnix_operating_system.Kernel.State.{
  UcRef, trap_frame, pcb_uc, Rest, after_clock, after_fork, after_wait, after_delay,
  after_tty_write, after_tty_read, after_acquire, after_cvar_wait, after_cvar_acquire,
  after_pipe_read,
}
use yalnix_operating_system.Kernel.Run.{M, Outcome, returns, switched, ◌>>=◌, pure, get, from}
use yalnix_operating_system.Kernel.Switch.{finish_context_switch}
use yalnix_operating_system.Trap.{get_pid, handle_trap_illegal, handle_trap_math}
use yalnix_operating_system.Dispatch
use yalnix_operating_system.Dispatch.{
  Syscall, Outside, guarded, guarded_two, guarded_text, serve, syscall_of, set_retval,
  handle_trap_kernel, finish, resume, Trap, trap_kernel, trap_clock, trap_illegal, trap_memory,
  trap_math, trap_tty_receive, trap_tty_transmit, trap_disk, interrupt_vector, value, refuse,
}
use yalnix_operating_system.System.Tables.{
  Keeps, bind-Keeps, pure-Keeps, get-Keeps, from-Keeps, if-Keeps,
}
use yalnix_operating_system.System.Sync
use yalnix_operating_system.System.Processes
use yalnix_operating_system.System.Terminals
use yalnix_operating_system.System.Faults

module _ (at : ℕ) where
  pub value-Keeps : (m : M ℕ) → Keeps at m → Keeps at (value m)
  value-Keeps m h =
      bind-Keeps at m (λ v. pure (returns (some v))) h (λ v. pure-Keeps at (returns (some v)))

  pub either-Keeps : (m n : M ℕ) → Keeps at m → Keeps at n → Keeps at (Dispatch.either m n)
  either-Keeps m n hm hn = bind-Keeps at m _ hm (λ a.
      if-Keeps at (a == 1) (pure true) _ (pure-Keeps at true)
        (bind-Keeps at n _ hn (λ b. pure-Keeps at (b == 1))))

  pub get_pid-Keeps : Keeps at get_pid
  unfolding get_pid
  get_pid-Keeps k a k' h = ground arith

  pub set_retval-Keeps : (junk : ℕ) (o : Outcome) → Keeps at (set_retval junk o)
  unfolding set_retval
  set_retval-Keeps junk switched k a k' h = ground arith
  set_retval-Keeps junk (returns v) k a k' h = ground arith

  answer-Keeps :
      (junk : ℕ) (m : M ℕ) → Keeps at m → Keeps at (m >>= λ rc. set_retval junk (returns (some rc)))
  answer-Keeps junk m h = bind-Keeps at m _ h (λ rc. set_retval-Keeps junk (returns (some rc)))

  finish-Keeps : (junk : ℕ) (r : Rest) → Keeps at (finish junk r)
  unfolding finish
  finish-Keeps junk after_clock = pure-Keeps at (returns none)
  finish-Keeps junk (after_fork parent child) =
      answer-Keeps junk _ (Processes.fork_resumed-Keeps at parent child)
  finish-Keeps junk (after_wait parent ptr) =
      answer-Keeps junk _ (Processes.wait_resumed-Keeps at parent ptr)
  finish-Keeps junk after_delay = set_retval-Keeps junk (returns (some success))
  finish-Keeps junk (after_tty_write len) = set_retval-Keeps junk (returns (some len))
  finish-Keeps junk (after_tty_read tty buf len) =
      answer-Keeps junk _ (Terminals.tty_read_resumed-Keeps at tty buf len)
  finish-Keeps junk after_acquire = set_retval-Keeps junk (returns (some success))
  finish-Keeps junk (after_cvar_wait lock) =
      bind-Keeps at _ _ (Sync.cvar_wait_resumed-Keeps at lock) (set_retval-Keeps junk)
  finish-Keeps junk after_cvar_acquire = set_retval-Keeps junk (returns none)
  finish-Keeps junk (after_pipe_read pipe buf len) =
      answer-Keeps junk _ (Sync.pipe_read_resumed-Keeps at pipe buf len)

  finish_context_switch-Keeps : (uc : UcRef) → Keeps at (finish_context_switch uc)
  unfolding finish_context_switch
  finish_context_switch-Keeps trap_frame k a k' h = ground arith
  finish_context_switch-Keeps (pcb_uc p) k a k' h = ground arith

  pub resume-Keeps : (junk : ℕ) → Keeps at (resume junk)
  unfolding resume
  resume-Keeps junk = bind-Keeps at get _ (get-Keeps at) (λ k.
      bind-Keeps at (from (k.point_at k.curr_proc)) _ (from-Keeps at (k.point_at k.curr_proc)) (λ p.
        bind-Keeps at (finish_context_switch p.uc) _ (finish_context_switch-Keeps p.uc)
          (λ _. finish-Keeps junk p.rest)))

  pub handle_trap_illegal-Keeps : (fresh : ℕ) → Keeps at (handle_trap_illegal fresh)
  unfolding handle_trap_illegal
  handle_trap_illegal-Keeps fresh = Faults.abort_current_process-Keeps at fresh error

  pub handle_trap_math-Keeps : (fresh : ℕ) → Keeps at (handle_trap_math fresh)
  unfolding handle_trap_math
  handle_trap_math-Keeps fresh = Faults.abort_current_process-Keeps at fresh error
