-- ===== src/System/Traps.antt =====
-- The traps, and the return of a process that was switched out, number objects as the calls do.
use yalnix_operating_system.Base.{ℕ, none, some, error, ◌==◌, ◌||◌, get_elem?}
use yalnix_operating_system.Kernel.State.{after_acquire}
use yalnix_operating_system.Kernel.Run.{M, Outcome, returns, pure, get, from}
use yalnix_operating_system.Memory.Pointers.{chk_range, chk_valid, chk_rw, chk_str}
use yalnix_operating_system.Dispatch
use yalnix_operating_system.Dispatch.{
  Syscall, Outside, guarded, guarded_two, guarded_text, serve, syscall_of, set_retval,
  handle_trap_kernel, finish, resume, Trap, trap_kernel, trap_clock, trap_illegal, trap_memory,
  trap_math, trap_tty_receive, trap_tty_transmit, trap_disk, interrupt_vector, value, refuse,
}
use yalnix_operating_system.System.Tables.{bind-Keeps, pure-Keeps, get-Keeps, from-Keeps}
use yalnix_operating_system.System.Sync
use yalnix_operating_system.System.Processes
use yalnix_operating_system.System.Memory
use yalnix_operating_system.System.Terminals
use yalnix_operating_system.System.Faults
use yalnix_operating_system.System.Programs
use yalnix_operating_system.System.Invariant.{
  Invariant, Counts, Keeps-Counts, Counts-bind, bind-Counts, if-Counts,
}
use yalnix_operating_system.System.Resume.{
  value-Keeps, either-Keeps, get_pid-Keeps, set_retval-Keeps, handle_trap_illegal-Keeps,
  handle_trap_math-Keeps,
}

module _ (I : Invariant) where
  value-Counts : (m : M ℕ) → Counts I m → Counts I (value m)
  value-Counts m h =
      Counts-bind I m (λ v. pure (returns (some v))) h (λ at v. pure-Keeps at (returns (some v)))

  refuse-Counts : Counts I refuse
  refuse-Counts = Keeps-Counts I refuse (λ at. pure-Keeps at (returns (some error)))

  guarded-Counts : (ptr : ℕ) (call : M Outcome) → Counts I call → Counts I (guarded ptr call)
  unfolding guarded
  guarded-Counts ptr call h = if-Counts I (chk_range ptr == 1) refuse _ refuse-Counts (
      bind-Counts I (chk_valid ptr) _ (λ at. Memory.chk_valid-Keeps at ptr)
        (λ v. if-Counts I (v == 1) refuse _ refuse-Counts (
          bind-Counts I (chk_rw ptr) _ (λ at. Memory.chk_rw-Keeps at ptr)
            (λ d. if-Counts I (d == 1) refuse call refuse-Counts h))))

  guarded_two-Counts :
      (p q : ℕ) (call : M Outcome) → Counts I call → Counts I (guarded_two p q call)
  unfolding guarded_two
  guarded_two-Counts p q call h =
      if-Counts I (chk_range p == 1 || chk_range q == 1) refuse _ refuse-Counts (
        bind-Counts I (Dispatch.either (chk_valid p) (chk_valid q)) _
          (λ at.
            either-Keeps at (chk_valid p) (chk_valid q) (Memory.chk_valid-Keeps at p)
              (Memory.chk_valid-Keeps at q))
          (λ v. if-Counts I v refuse _ refuse-Counts (
            bind-Counts I (Dispatch.either (chk_rw p) (chk_rw q)) _
              (λ at.
                either-Keeps at (chk_rw p) (chk_rw q) (Memory.chk_rw-Keeps at p)
                  (Memory.chk_rw-Keeps at q))
              (λ d. if-Counts I d refuse call refuse-Counts h))))

  guarded_text-Counts :
      (ptr len : ℕ) (call : M Outcome) → Counts I call → Counts I (guarded_text ptr len call)
  unfolding guarded_text
  guarded_text-Counts ptr len call h =
      bind-Counts I (chk_str ptr len) _ (λ at. Memory.chk_str-Keeps at ptr len)
        (λ bad. if-Counts I (bad == 0) call refuse h refuse-Counts)

  serve-Counts : (o : Outside) (s : Syscall) (r0 r1 r2 : ℕ) → Counts I (serve o s r0 r1 r2)
  unfolding serve
  serve-Counts o Syscall.yalnix_fork r0 r1 r2 = I.fork o.mallocs
  serve-Counts o Syscall.yalnix_exec r0 r1 r2 =
      guarded_two-Counts r0 r1 _
        (Keeps-Counts I _ (λ at. value-Keeps at _ (Programs.exec-Keeps at o.exec_args)))
  serve-Counts o Syscall.yalnix_exit r0 r1 r2 =
      Keeps-Counts I _ (λ at. Processes.exit-Keeps at o.fresh r0)
  serve-Counts o Syscall.yalnix_wait r0 r1 r2 =
      guarded-Counts r0 _ (Keeps-Counts I _ (λ at. Processes.wait-Keeps at r0))
  serve-Counts o Syscall.yalnix_getpid r0 r1 r2 =
      Keeps-Counts I _ (λ at. value-Keeps at _ (get_pid-Keeps at))
  serve-Counts o Syscall.yalnix_brk r0 r1 r2 =
      guarded-Counts r0 _ (Keeps-Counts I _ (λ at. value-Keeps at _ (Memory.brk-Keeps at r0)))
  serve-Counts o Syscall.yalnix_delay r0 r1 r2 =
      Keeps-Counts I _ (λ at. Processes.delay-Keeps at r0)
  serve-Counts o Syscall.yalnix_tty_write r0 r1 r2 =
      guarded_text-Counts r1 r2 _
        (Keeps-Counts I _ (λ at. Terminals.tty_write-Keeps at r0 o.memory r2))
  serve-Counts o Syscall.yalnix_tty_read r0 r1 r2 =
      guarded_text-Counts r1 r2 _
        (Keeps-Counts I _ (λ at. Terminals.tty_read-Keeps at o.junk r0 r1 r2))
  serve-Counts o Syscall.yalnix_cvar_init r0 r1 r2 = value-Counts _ (I.cvar_init o.fresh r0)
  serve-Counts o Syscall.yalnix_cvar_signal r0 r1 r2 =
      Keeps-Counts I _ (λ at. value-Keeps at _ (Sync.cvar_signal-Keeps at r0))
  serve-Counts o Syscall.yalnix_cvar_broadcast r0 r1 r2 =
      Keeps-Counts I _ (λ at. value-Keeps at _ (Sync.cvar_broadcast-Keeps at r0))
  serve-Counts o Syscall.yalnix_cvar_wait r0 r1 r2 =
      Keeps-Counts I _ (λ at. Sync.cvar_wait-Keeps at r0 r1)
  serve-Counts o Syscall.yalnix_lock_init r0 r1 r2 =
      guarded-Counts r0 _ (value-Counts _ (I.lock_init o.fresh r0))
  serve-Counts o Syscall.yalnix_lock_acquire r0 r1 r2 =
      Keeps-Counts I _ (λ at. Sync.acquire-Keeps at after_acquire r0)
  serve-Counts o Syscall.yalnix_lock_release r0 r1 r2 =
      Keeps-Counts I _ (λ at. value-Keeps at _ (Sync.release-Keeps at r0))
  serve-Counts o Syscall.yalnix_pipe_init r0 r1 r2 =
      guarded-Counts r0 _ (value-Counts _ (I.pipe_init o.fresh o.fresh_buf r0))
  serve-Counts o Syscall.yalnix_pipe_read r0 r1 r2 =
      guarded_text-Counts r1 r2 _ (Keeps-Counts I _ (λ at. Sync.pipe_read-Keeps at r0 r1 r2))
  serve-Counts o Syscall.yalnix_pipe_write r0 r1 r2 =
      guarded_text-Counts r1 r2 _
        (Keeps-Counts I _ (λ at. value-Keeps at _ (Sync.pipe_write-Keeps at r0 o.memory r2)))
  serve-Counts o Syscall.yalnix_reclaim r0 r1 r2 = value-Counts _ (I.reclaim r0)
  serve-Counts o Syscall.unrecognized r0 r1 r2 =
      Keeps-Counts I _ (λ at. pure-Keeps at (returns none))

  handle_trap_kernel-Counts : (o : Outside) (junk : ℕ) → Counts I (handle_trap_kernel o junk)
  unfolding handle_trap_kernel
  handle_trap_kernel-Counts o junk =
      bind-Counts I get _ (λ at. get-Keeps at)
        (λ k.
          bind-Counts I (from (k.frame_at k.curr_proc)) _
            (λ at. from-Keeps at (k.frame_at k.curr_proc))
            (λ u.
              bind-Counts I (from (get_elem? u.regs 0)) _ (λ at. from-Keeps at (get_elem? u.regs 0))
                (λ r0.
                  bind-Counts I (from (get_elem? u.regs 1)) _
                    (λ at. from-Keeps at (get_elem? u.regs 1))
                    (λ r1.
                      bind-Counts I (from (get_elem? u.regs 2)) _
                        (λ at. from-Keeps at (get_elem? u.regs 2))
                        (λ r2.
                          Counts-bind I (serve o (syscall_of u.code) r0 r1 r2) _
                            (serve-Counts o (syscall_of u.code) r0 r1 r2)
                            (λ at. set_retval-Keeps at junk))))))

  pub interrupt_vector-Counts : (t : Trap) → Counts I (interrupt_vector t)
  unfolding interrupt_vector
  interrupt_vector-Counts (trap_kernel o junk) = handle_trap_kernel-Counts o junk
  interrupt_vector-Counts trap_clock = Keeps-Counts I _ (λ at. Processes.handle_trap_clock-Keeps at)
  interrupt_vector-Counts (trap_illegal fresh) =
      Keeps-Counts I _ (λ at. handle_trap_illegal-Keeps at fresh)
  interrupt_vector-Counts (trap_memory fresh beyond) =
      Keeps-Counts I _ (λ at. Faults.handle_trap_memory-Keeps at fresh beyond)
  interrupt_vector-Counts (trap_math fresh) =
      Keeps-Counts I _ (λ at. handle_trap_math-Keeps at fresh)
  interrupt_vector-Counts (trap_tty_receive fresh id received junk) = Keeps-Counts I _ (λ at.
      bind-Keeps at _ _ (Terminals.handle_trap_tty_receive-Keeps at fresh id received junk)
        (λ _. pure-Keeps at (returns none)))
  interrupt_vector-Counts (trap_tty_transmit wild id) = Keeps-Counts I _ (λ at.
      bind-Keeps at _ _ (Terminals.handle_trap_tty_transmit-Keeps at wild id)
        (λ _. pure-Keeps at (returns none)))
  interrupt_vector-Counts trap_disk = Keeps-Counts I _ (λ at. pure-Keeps at (returns none))
