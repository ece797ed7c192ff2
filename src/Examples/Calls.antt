-- ===== src/Examples/Calls.antt =====
-- System calls that are refused: a pointer outside Region 1, and a break.
use yalnix_operating_system.Base.{
  ◌+◌, ◌≡◌, ◌^◌, refl, arith, some, true, ◌∷◌, replicate, update, error,
}
use yalnix_operating_system.Kernel.State.{Kernel, Pcb, UserContext}
use yalnix_operating_system.Kernel.Run.{ok, returns}
use yalnix_operating_system.Dispatch.{Syscall, yalnix_prefix, handle_trap_kernel, syscall_of}
use yalnix_operating_system.Dispatch.Refused.{answered, bad_pointer_refused, has_bad_pointer}
use yalnix_operating_system.Memory.Pointers.{chk_range}
use yalnix_operating_system.Dispatch.Breaks.{brk_always_fails}
use yalnix_operating_system.Examples.Sample.{kernel, user, child, no_page}
use yalnix_operating_system.Examples.Machine.{outside}

-- A write of three pages from address 4096 to terminal 1.
abbrev writer : UserContext
writer = record user { code = yalnix_prefix + 34; regs = 1 ∷ 4096 ∷ 24576 ∷ replicate 5 0 }

abbrev writing : Kernel
writing = record kernel { frame_at = update kernel.frame_at 100 (some writer) }

bad : has_bad_pointer (syscall_of writer.code) 1 4096 24576 ≡ true
unfolding syscall_of chk_range
bad = refl

bad_pointer_refused_example :
    handle_trap_kernel outside 0 writing ≡ ok (returns (some error)) (answered writing writer error)
bad_pointer_refused_example =
    bad_pointer_refused outside 0 writing writer 1 4096 24576 refl refl refl refl bad

-- A break one page above the base of Region 1.
abbrev breaker : UserContext
breaker = record user { code = yalnix_prefix + 6; regs = (2 ^ 20 + 2 ^ 13) ∷ replicate 7 0 }

abbrev mapped : Pcb
mapped = record child { region1_pt = replicate 128 no_page }

abbrev breaking : Kernel
breaking = record kernel {
  procs = update kernel.procs 100 (some mapped);
  frame_at = update kernel.frame_at 100 (some breaker);
}

is_brk : syscall_of breaker.code ≡ Syscall.yalnix_brk
unfolding syscall_of
is_brk = refl

brk_always_fails_example :
    handle_trap_kernel outside 0 breaking
    ≡ ok (returns (some error)) (answered breaking breaker error)
brk_always_fails_example =
    brk_always_fails outside 0 breaking breaker mapped (2 ^ 20 + 2 ^ 13) 0 0 refl is_brk refl refl
      refl refl refl (omega arith) (omega arith) (omega arith)
