-- ===== src/Base/Words.antt =====
-- 32-bit words. An `int` is its two's complement pattern, a number below `2 ^ 32`: `==` between an
-- `int` and an `unsigned int` is then equality, and a cast between them is the identity.
use Prim.Native.Nat.{ℕ, ◌+◌, ◌-◌, ◌%◌, ◌^◌}
use mathlib.Core.Bool.{Bool, true, false}
use mathlib.Core.Option.{Option}
use yalnix_operating_system.Base.Tests.{ltb, leb, ◌==◌, if◌then◌else◌}

abbrev pub word_mod : ℕ
word_mod = 2 ^ 32

-- `ERROR`, that is -1.
abbrev pub error : ℕ
error = word_mod - 1

abbrev pub success : ℕ
success = 0

abbrev pub null : ℕ
null = 0

abbrev pub is_negative : ℕ → Bool
is_negative w = leb (2 ^ 31) w

-- `a > b` between ints.
abbrev pub greater : ℕ → ℕ → Bool
greater a b =
    if is_negative a
    then (if is_negative b then ltb b a else false)
    else (if is_negative b then true else ltb b a)

abbrev pub add_word : ℕ → ℕ → ℕ
add_word a b = (a + b) % word_mod

abbrev pub sub_word : ℕ → ℕ → ℕ
sub_word a b = (a + word_mod - b) % word_mod

-- What lives at an address, if anything.
abbrev pub Store : Type 0 → Type 0
Store A = ℕ → Option A

abbrev pub update : {A : Type 0} → Store A → ℕ → Option A → Store A
update f p v q = if p == q then v else f q
