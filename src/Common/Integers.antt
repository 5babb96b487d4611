-- ===== src/Common/Integers.antt =====
-- Signed numbers: durations, points in time before an epoch, and the arguments of type `ptrdiff_t`.
use Prim.Native.Nat.{ℕ, ◌+◌, ◌-◌, ◌%◌}
use yamc.Common.Tests.{leb, if◌then◌else◌}

pub data ℤ : Type 0 where
  pos negsuc : (n : ℕ) → ℤ

-- `a - b`.
abbrev pub minus : ℕ → ℕ → ℤ
minus a b = if leb b a then pos (a - b) else negsuc (b - a - 1)

abbrev pub plus : ℤ → ℕ → ℤ
plus (pos t) n = pos (t + n)
plus (negsuc t) n = minus n (t + 1)

-- `%`, which has the sign of the left number.
abbrev pub rem : ℤ → ℕ → ℤ
rem (pos t) n = pos (t % n)
rem (negsuc t) n = minus 0 ((t + 1) % n)
