-- ===== src/Common/Words.antt =====
-- Machine words: `size_t` of 64 bits and `unsigned` of 32. A word is a number below its modulus, and
-- bit operations with a mask of one bit, or of all bits below one, are written by arithmetic.
use Prim.Native.Nat.{ℕ, ◌+◌, ◌-◌, ◌%◌, ◌^◌}
use mathlib.Core.Bool.{Bool}
use yamc.Common.Tests.{leb, if◌then◌else◌}

-- `++x` and `--x` on a word of `m` values.
abbrev pub inc : ℕ → ℕ → ℕ
inc m x = (x + 1) % m

abbrev pub dec : ℕ → ℕ → ℕ
dec m x = (x + m - 1) % m

abbrev pub size_mod : ℕ
size_mod = 2 ^ 64

abbrev pub unsigned_mod : ℕ
unsigned_mod = 2 ^ 32

-- The most significant bit of a `size_t`, and the bits below it.
abbrev pub top_bit : ℕ
top_bit = 2 ^ 63

-- `(x & top_bit) != 0`, `x | top_bit`, and `x & ~top_bit`, which is `x & (top_bit - 1)` too.
abbrev pub has_top : ℕ → Bool
has_top x = leb top_bit x

abbrev pub set_top : ℕ → ℕ
set_top x = if leb top_bit x then x else x + top_bit

abbrev pub low_bits : ℕ → ℕ
low_bits x = x % top_bit
