-- ===== src/Examples/Machine.antt =====
-- The machine from its boot on, with four free frames and no program to load.
use yalnix_operating_system.Base.{
  ℕ, ◌+◌, ◌-◌, ◌*◌, ◌^◌, ◌≡◌, ◌≢◌, ◌≤◌, ◌<◌, error, none, arith, refl, some, [], ◌∷◌, replicate,
  false, ◌++◌, drop, get_elem?,
}
use yalnix_operating_system.Kernel.State.{Kernel, Lock, Pcb, UserContext}
use yalnix_operating_system.Kernel.Run.{Run, ok, fault, exits, hangs, returns}
use yalnix_operating_system.Process.Fork.{new_process}
use yalnix_operating_system.Program.Load.{no_file}
use yalnix_operating_system.Boot.{
  BootArgs, no_page, rw_page, kernel_entry, kernel_start, init_queues, make_ttys, list_frames,
  kernel_entries, take_frame, init_tables, make_idle, make_init, start_init, run_idle,
}
use yalnix_operating_system.Boot.Start.{kernel_start_lem}
use yalnix_operating_system.LinkedList.{node}
use yalnix_operating_system.Kernel.Switch.{kernel_stack_page}
use yalnix_operating_system.Dispatch.{
  Outside, trap_kernel, interrupt_vector, yalnix_prefix, handle_trap_kernel, serve, guarded,
  set_retval, syscall_of,
}
use yalnix_operating_system.Memory.Pointers.{
  chk_range, chk_valid, chk_rw, chk_read, chk_write, page_of,
}
use yalnix_operating_system.Sync.Locks.{lock_init}
use yalnix_operating_system.Sync.Cvars.{cvar_init}
use yalnix_operating_system.System.Numbers.{Numbered}
use yalnix_operating_system.System.Start.{PowerOn}
use yalnix_operating_system.System.Machine.{Machine, Step, Reach, trap, here, next, trapped}
use yalnix_operating_system.System.Boot.{boot-Numbered, boot-Pids, boot-Locks}
use yalnix_operating_system.Examples.Sample.{kernel, user, pcb}

abbrev pub boot_args : BootArgs
boot_args = record {
  kernel_data_end = 40 * 2 ^ 13;
  pmem_size = 132 * 2 ^ 13;
  uctxt = user;
  cmd_args = [];
  file = no_file;
  do_idle = 4096;
  r1_pagetable = 7000;
  proc_pagetable = 7100;
  argbuf = 7200;
  tty = λ i. 8000 + i;
  idle_proc = 100;
  init_proc = 200;
  idle_junk = pcb 0 0;
  init_junk = pcb 0 0;
}

abbrev pub state_of : {A : Type 0} → Run A → Kernel
state_of (ok a k) = k
state_of fault = kernel
state_of (exits c) = kernel
state_of hangs = kernel

abbrev pub switched_on : Kernel
switched_on = record kernel { procs = λ _. none; lock_at = λ _. none; frame_list = [] }

switched_on-PowerOn : PowerOn switched_on
switched_on-PowerOn = record { procs = λ p. refl; locks = λ p. refl }

booted : Kernel
unfolding kernel_start init_queues make_ttys list_frames kernel_entries take_frame init_tables
    make_idle make_init start_init run_idle new_process
booted = state_of (kernel_start boot_args switched_on)

boots : kernel_start boot_args switched_on ≡ ok tt booted
unfolding booted
boots = refl

abbrev pub outside : Outside
outside = record {
  mallocs = record { pcb = 900; junk = pcb 0 0; region0_pt = 901; region1_pt = 902 };
  fresh = 910;
  fresh_buf = 911;
  memory = [];
  junk = 0;
  exec_args = record { copied = false; file = no_file; args = []; pagetable = 920; argbuf = 921 };
}

-- The user context of a call of `LockInit` or `CvarInit`.
abbrev calls : ℕ → UserContext
calls code = record user { code = code; regs = (2 ^ 21 - 100) ∷ replicate 7 0 }

abbrev machine : Kernel → Machine
machine k = record { kernel = k; in_kernel = false }

after_call : ℕ → Kernel → Kernel
unfolding interrupt_vector handle_trap_kernel syscall_of serve guarded chk_range chk_valid chk_rw
    chk_read chk_write page_of lock_init cvar_init set_retval
after_call code k = state_of (interrupt_vector (trap_kernel outside 0) (trapped k (calls code)))

lock_made : Kernel
lock_made = after_call (yalnix_prefix + 99) booted

cvar_made : Kernel
cvar_made = after_call (yalnix_prefix + 102) lock_made

lock-Step : Step (machine booted) (machine lock_made)
unfolding lock_made after_call booted
lock-Step =
    trap (trap_kernel outside 0) (calls (yalnix_prefix + 99)) (returns (some 0)) lock_made refl refl
      refl

cvar-Step : Step (machine lock_made) (machine cvar_made)
unfolding cvar_made lock_made after_call booted
cvar-Step =
    trap (trap_kernel outside 0) (calls (yalnix_prefix + 102)) (returns (some 0)) cvar_made refl
      refl refl

two_calls : Reach (machine booted) 2 (machine cvar_made)
two_calls = next (next here lock-Step) cvar-Step

boot-Numbered_example : Numbered 2 cvar_made
boot-Numbered_example =
    boot-Numbered boot_args switched_on booted 2 (machine cvar_made) (omega arith) boots two_calls

boot-Pids_example :
    (cvar_made.available_process_id ≤ 4)
    × ((p : ℕ) (c : Pcb) → cvar_made.procs p ≡ some c → c.proc_id < cvar_made.available_process_id)
    × ((p q : ℕ) (c d : Pcb)
        → cvar_made.procs p ≡ some c
        → cvar_made.procs q ≡ some d
        → p ≢ q
        → c.proc_id ≢ d.proc_id)
boot-Pids_example =
    boot-Pids boot_args switched_on booted 2 (machine cvar_made) (omega arith) switched_on-PowerOn
      boots two_calls

abbrev new_lock : Lock
new_lock = record { id = 0; owner_id = error; is_claimed = 0; waiters = [] }

lock_there : cvar_made.lock_at 910 ≡ some new_lock
unfolding cvar_made lock_made after_call booted
lock_there = refl

boot-Locks_example : (new_lock.owner_id ≡ error) × (new_lock.waiters ≡ [])
boot-Locks_example =
    boot-Locks boot_args switched_on booted 2 (machine cvar_made) (omega arith) switched_on-PowerOn
      boots two_calls 910 new_lock lock_there refl

kernel_start_lem_example :
    (k' : Kernel) × (idle init : Pcb) × (kernel_start boot_args switched_on ≡ ok tt k')
    × (k'.curr_proc ≡ 100)
    × (k'.vm_en ≡ 1)
    × (k'.procs 100 ≡ some idle)
    × (k'.procs 200 ≡ some init)
    × (idle.proc_id ≡ 0)
    × (init.proc_id ≡ 1)
    × (idle.children ≡ some (node 1 200 ∷ []))
    × (init.parent ≡ 100)
    × (idle.region1_pt ≡ replicate 126 no_page ++ (rw_page 129 ∷ rw_page 128 ∷ []))
    × (idle.region0_pt ≡ drop kernel_stack_page k'.r0_pagetable)
    × (init.region1_pt ≡ replicate 128 no_page)
    × (init.region0_pt ≡ rw_page 130 ∷ rw_page 131 ∷ [])
    × (get_elem? k'.r0_pagetable 39 ≡ some (kernel_entry 40 0 39))
    × (k'.frame_list ≡ [])
    × (k'.all_procs ≡ node 0 100 ∷ node 0 100 ∷ [])
    × (k'.ready_procs ≡ [])
kernel_start_lem_example =
    kernel_start_lem boot_args 0 switched_on refl refl refl (ground arith) (ground arith)
      (ground arith) 39 (omega arith)
