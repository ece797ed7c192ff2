-- ===== src/Dispatch/Codes.antt =====
-- The codes of the system calls, in incl_copies/yalnix.h.
use yalnix_operating_system.Base.{ℕ, ◌+◌, if◌then◌else◌, ◌==◌}

-- The calls that `switch (uc->code)` names, by the last byte of their codes in yalnix.h, and all others.
pub data Syscall : Type 0 where
  yalnix_fork yalnix_exec yalnix_exit yalnix_wait yalnix_getpid yalnix_brk yalnix_delay : Syscall
  yalnix_tty_write yalnix_tty_read : Syscall
  yalnix_cvar_init yalnix_cvar_signal yalnix_cvar_broadcast yalnix_cvar_wait : Syscall
  yalnix_lock_init yalnix_lock_acquire yalnix_lock_release : Syscall
  yalnix_pipe_init yalnix_pipe_read yalnix_pipe_write yalnix_reclaim : Syscall
  unrecognized : Syscall

abbrev pub yalnix_prefix : ℕ
yalnix_prefix = 2882400000

unfoldable pub syscall_of : (code : ℕ) → Syscall
syscall_of code =
    if code == yalnix_prefix + 1
    then yalnix_fork
    else if code == yalnix_prefix + 2
    then yalnix_exec
    else if code == yalnix_prefix + 3
    then yalnix_exit
    else if code == yalnix_prefix + 4
    then yalnix_wait
    else if code == yalnix_prefix + 5
    then yalnix_getpid
    else if code == yalnix_prefix + 6
    then yalnix_brk
    else if code == yalnix_prefix + 7
    then yalnix_delay
    else if code == yalnix_prefix + 33
    then yalnix_tty_read
    else if code == yalnix_prefix + 34
    then yalnix_tty_write
    else if code == yalnix_prefix + 72
    then yalnix_pipe_init
    else if code == yalnix_prefix + 73
    then yalnix_pipe_read
    else if code == yalnix_prefix + 74
    then yalnix_pipe_write
    else if code == yalnix_prefix + 99
    then yalnix_lock_init
    else if code == yalnix_prefix + 100
    then yalnix_lock_acquire
    else if code == yalnix_prefix + 101
    then yalnix_lock_release
    else if code == yalnix_prefix + 102
    then yalnix_cvar_init
    else if code == yalnix_prefix + 103
    then yalnix_cvar_signal
    else if code == yalnix_prefix + 104
    then yalnix_cvar_broadcast
    else if code == yalnix_prefix + 105
    then yalnix_cvar_wait
    else if code == yalnix_prefix + 106
    then yalnix_reclaim
    else unrecognized
