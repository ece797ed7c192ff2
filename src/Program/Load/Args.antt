-- ===== src/Program/Load/Args.antt =====
-- Where `LoadProgram` puts the arguments.
use yalnix_operating_system.Base.{
  ℕ, ◌+◌, ◌-◌, ◌*◌, ◌/◌, ◌%◌, ◌≤◌, ◌^◌, ◌≡◌, refl, List, length, arith, sub_word,
}
use yalnix_operating_system.Memory.Pointers.{page_size, vmem_1_base, vmem_1_limit}
use yalnix_operating_system.Memory.Brk.{page_shift, down_to_page}
use yalnix_operating_system.Program.Load.{
  args_size, args_start, argv_start, stack_pointer, stack_npg, post_argv_null_space,
}

-- The bytes that the arguments, the pointers to them and the space between take.
abbrev pub args_need : List (List ℕ) → ℕ
args_need args = args_size args + (length args + 3 + post_argv_null_space) * 4 + 8

pages_from :
    (p : ℕ)
    → vmem_1_base ≤ p
    → p ≤ vmem_1_limit
    → page_shift (sub_word vmem_1_limit (down_to_page p))
      ≡ (vmem_1_limit - (p - p % page_size)) / page_size
pages_from p low high =
    let e : sub_word vmem_1_limit (down_to_page p) ≡ vmem_1_limit - (p - p % page_size) =
      omega arith in
    rw e (ground arith)

pages_cover :
    (p : ℕ)
    → vmem_1_base ≤ p
    → p ≤ vmem_1_limit
    → vmem_1_limit ≤ p + page_shift (sub_word vmem_1_limit (down_to_page p)) * page_size
pages_cover p low high = rw (pages_from p low high) (omega arith)

pages_bound :
    (p : ℕ)
    → vmem_1_base ≤ p
    → p ≤ vmem_1_limit
    → page_shift (sub_word vmem_1_limit (down_to_page p)) ≤ 128
pages_bound p low high = rw (pages_from p low high) (omega arith)

module _ (args : List (List ℕ)) (fits : args_need args ≤ 2 ^ 20) where
  start : args_start args ≡ vmem_1_limit - args_size args
  start = omega arith

  -- Where the pointers would start if they needed no alignment.
  abbrev top : ℕ
  top = vmem_1_limit - args_size args - (length args + 3 + post_argv_null_space) * 4

  argv : argv_start args ≡ top - top % 8
  argv =
      let e : sub_word (args_start args) ((length args + 3 + post_argv_null_space) * 4) ≡ top =
        omega (arith, start) in
      rw e refl

  pointer : stack_pointer args ≡ top - top % 8
  pointer = omega (arith, argv)

  -- If the arguments, the pointers to them and the space between fit into Region 1, the stack
  -- pointer of a new program is in Region 1 and a multiple of 8, the argument count and the
  -- pointers end below the texts, the texts end at the limit of Region 1, and the pages of the
  -- stack, 128 at most, cover everything from the stack pointer on.
  pub args_layout :
      (vmem_1_base ≤ stack_pointer args)
      × (stack_pointer args % 8 ≡ 0)
      × (stack_pointer args + 4 * (length args + 3) ≤ args_start args)
      × (args_start args + args_size args ≡ vmem_1_limit)
      × (vmem_1_limit ≤ stack_pointer args + stack_npg args * page_size)
      × (stack_npg args ≤ 128)
  args_layout =
      let low : vmem_1_base ≤ stack_pointer args = rw pointer (omega arith) in
      let high : stack_pointer args ≤ vmem_1_limit = rw pointer (omega arith) in
      (
        low,
        rw pointer (omega arith),
        rw pointer (rw start (omega arith)),
        rw start (omega arith),
        pages_cover (stack_pointer args) low high,
        pages_bound (stack_pointer args) low high,
      )
