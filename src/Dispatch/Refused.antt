-- ===== src/Dispatch/Refused.antt =====
-- System calls with a pointer outside Region 1.
use yalnix_operating_system.Base.{
  ℕ, zero, suc, ltb, is_negative, ◌/◌, ◌≡◌, refl, Bool, true, false, not, ◌&&◌, ◌||◌, some, arith,
  ◌==◌, ◌^◌, Bool-cases, inl, inr, get_elem?, set, update, error,
}
use yalnix_operating_system.Kernel.State.{Kernel, UserContext}
use yalnix_operating_system.Kernel.Run.{M, Outcome, returns, ok}
use yalnix_operating_system.Memory.Pointers.{chk_range, chk_str, chk_pages, chk_page, page_size}
use yalnix_operating_system.Dispatch.{
  Syscall, Outside, guarded, guarded_two, guarded_text, serve, syscall_of, set_retval,
  handle_trap_kernel,
}

-- An address in front of Region 1, or behind its end; the end itself is neither.
abbrev pub is_outside : ℕ → Bool
is_outside p = ltb p (2 ^ 20) || ltb (2 ^ 21) p

second_true : (a b : Bool) → a ≡ false → (a || b) ≡ true → b ≡ true
second_true true b e f = cc
second_true false b e f = f

or_true : (a : Bool) → (a || true) ≡ true
or_true true = refl
or_true false = refl

outside_range : (p : ℕ) → is_outside p ≡ true → (chk_range p == 1) ≡ true
unfolding chk_range
outside_range p out = ground (arith, out)

abbrev is_long_outside : (p len : ℕ) → Bool
is_long_outside p len = is_outside p && not (is_negative len) && ltb 0 (len / page_size)

-- The call gets a pointer outside Region 1 that it tests; a text is tested only if it is a page long.
abbrev pub has_bad_pointer : Syscall → (r0 r1 r2 : ℕ) → Bool
has_bad_pointer Syscall.yalnix_exec r0 r1 r2 = is_outside r0 || is_outside r1
has_bad_pointer Syscall.yalnix_wait r0 r1 r2 = is_outside r0
has_bad_pointer Syscall.yalnix_brk r0 r1 r2 = is_outside r0
has_bad_pointer Syscall.yalnix_lock_init r0 r1 r2 = is_outside r0
has_bad_pointer Syscall.yalnix_pipe_init r0 r1 r2 = is_outside r0
has_bad_pointer Syscall.yalnix_tty_write r0 r1 r2 = is_long_outside r1 r2
has_bad_pointer Syscall.yalnix_tty_read r0 r1 r2 = is_long_outside r1 r2
has_bad_pointer Syscall.yalnix_pipe_read r0 r1 r2 = is_long_outside r1 r2
has_bad_pointer Syscall.yalnix_pipe_write r0 r1 r2 = is_long_outside r1 r2
has_bad_pointer s r0 r1 r2 = false

either_range :
    (p q : ℕ)
    → (is_outside p || is_outside q) ≡ true
    → (chk_range p == 1 || chk_range q == 1) ≡ true
either_range p q out = elim (Bool-cases (is_outside p)) [
  | inl at_p ↦ simp (outside_range p at_p) refl
  | inr fine ↦
      let at_q : is_outside q ≡ true = second_true (is_outside p) (is_outside q) fine out in
      simp (outside_range q at_q) (or_true (chk_range p == 1))
]

pub guarded_refuses :
    (p : ℕ) (call : M Outcome) (k : Kernel)
    → is_outside p ≡ true
    → guarded p call k ≡ ok (returns (some error)) k
unfolding guarded
guarded_refuses p call k out = simp (outside_range p out) refl

guarded_two_refuses :
    (p q : ℕ) (call : M Outcome) (k : Kernel)
    → (is_outside p || is_outside q) ≡ true
    → guarded_two p q call k ≡ ok (returns (some error)) k
unfolding guarded_two
guarded_two_refuses p q call k out = simp (either_range p q out) refl

chk_pages_outside :
    (n p : ℕ) (k : Kernel) → is_outside p ≡ true → ltb 0 n ≡ true → chk_pages n p k ≡ ok 1 k
unfolding chk_pages chk_page
chk_pages_outside zero p k out some_rounds = absurd (ground (arith, some_rounds))
chk_pages_outside (suc n) p k out some_rounds = simp (outside_range p out) refl

guarded_text_refuses :
    (p len : ℕ) (call : M Outcome) (k : Kernel)
    → is_long_outside p len ≡ true
    → guarded_text p len call k ≡ ok (returns (some error)) k
unfolding guarded_text chk_str
guarded_text_refuses p len call k bad =
    let out : is_outside p ≡ true = ground (arith, bad) in
    let positive : is_negative len ≡ false = ground (arith, bad) in
    let long : ltb 0 (len / page_size) ≡ true = ground (arith, bad) in
    simp (positive, chk_pages_outside (len / page_size) p k out long) refl

serve_refuses :
    (o : Outside) (s : Syscall) (r0 r1 r2 : ℕ) (k : Kernel)
    → has_bad_pointer s r0 r1 r2 ≡ true
    → serve o s r0 r1 r2 k ≡ ok (returns (some error)) k
unfolding serve
serve_refuses o Syscall.yalnix_exec r0 r1 r2 k bad = guarded_two_refuses r0 r1 _ k bad
serve_refuses o Syscall.yalnix_wait r0 r1 r2 k bad = guarded_refuses r0 _ k bad
serve_refuses o Syscall.yalnix_brk r0 r1 r2 k bad = guarded_refuses r0 _ k bad
serve_refuses o Syscall.yalnix_lock_init r0 r1 r2 k bad = guarded_refuses r0 _ k bad
serve_refuses o Syscall.yalnix_pipe_init r0 r1 r2 k bad = guarded_refuses r0 _ k bad
serve_refuses o Syscall.yalnix_tty_write r0 r1 r2 k bad = guarded_text_refuses r1 r2 _ k bad
serve_refuses o Syscall.yalnix_tty_read r0 r1 r2 k bad = guarded_text_refuses r1 r2 _ k bad
serve_refuses o Syscall.yalnix_pipe_read r0 r1 r2 k bad = guarded_text_refuses r1 r2 _ k bad
serve_refuses o Syscall.yalnix_pipe_write r0 r1 r2 k bad = guarded_text_refuses r1 r2 _ k bad
serve_refuses o Syscall.yalnix_fork r0 r1 r2 k bad = cc
serve_refuses o Syscall.yalnix_exit r0 r1 r2 k bad = cc
serve_refuses o Syscall.yalnix_getpid r0 r1 r2 k bad = cc
serve_refuses o Syscall.yalnix_delay r0 r1 r2 k bad = cc
serve_refuses o Syscall.yalnix_cvar_init r0 r1 r2 k bad = cc
serve_refuses o Syscall.yalnix_cvar_signal r0 r1 r2 k bad = cc
serve_refuses o Syscall.yalnix_cvar_broadcast r0 r1 r2 k bad = cc
serve_refuses o Syscall.yalnix_cvar_wait r0 r1 r2 k bad = cc
serve_refuses o Syscall.yalnix_lock_acquire r0 r1 r2 k bad = cc
serve_refuses o Syscall.yalnix_lock_release r0 r1 r2 k bad = cc
serve_refuses o Syscall.yalnix_reclaim r0 r1 r2 k bad = cc
serve_refuses o Syscall.unrecognized r0 r1 r2 k bad = cc

-- The state in which a call has put `v` into the first register.
abbrev pub answered : Kernel → UserContext → ℕ → Kernel
answered k u v = record k {
  frame_at = update k.frame_at k.curr_proc (some (record u { regs = set u.regs 0 v }));
}

module _ (o : Outside) (retval : ℕ) (k : Kernel) (u : UserContext) (r0 r1 r2 : ℕ)
    (frame : k.frame_at k.curr_proc ≡ some u) (reg0 : get_elem? u.regs 0 ≡ some r0)
    (reg1 : get_elem? u.regs 1 ≡ some r1) (reg2 : get_elem? u.regs 2 ≡ some r2) where
  -- A system call that is given a pointer below 2^20, where Region 1 begins, or above 2^21, the
  -- address behind its last byte, where it tests one (either pointer of an exec, the pointer of a
  -- wait, a brk, a lock init or a pipe init, the buffer of a terminal or pipe call whose length is
  -- not negative and at least a page), puts -1 into the first register, and nothing else changes.
  pub bad_pointer_refused :
      has_bad_pointer (syscall_of u.code) r0 r1 r2 ≡ true
      → handle_trap_kernel o retval k ≡ ok (returns (some error)) (answered k u error)
  unfolding handle_trap_kernel set_retval
  bad_pointer_refused bad =
      simp (frame, reg0, reg1, reg2, serve_refuses o (syscall_of u.code) r0 r1 r2 k bad) refl
