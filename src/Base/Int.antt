-- ===== src/Base/Int.antt =====
-- The C type `int`, as an integer over the native numbers. The counters that the program keeps in
-- an `int` stay far below 2 ^ 31, so it does not wrap here.
use Prim.Native.Nat.{ℕ, zero, suc, ◌+◌, ◌-◌, ◌*◌, ◌%◌}
use mathlib.Core.Bool.{Bool}
use peer_server.Base.Tests.{ltb, leb, if◌then◌else◌}

-- `negsuc n` is -(n + 1).
pub data ℤ : Type 0 where
  pos : ℕ → ℤ
  negsuc : ℕ → ℤ

abbrev pub pos_part : ℤ → ℕ
pos_part (pos n) = n
pos_part (negsuc n) = 0

abbrev pub neg_part : ℤ → ℕ
neg_part (pos n) = 0
neg_part (negsuc n) = suc n

-- a - b, as an integer.
abbrev pub sub_ℕ : ℕ → ℕ → ℤ
sub_ℕ a b = if leb b a then pos (a - b) else negsuc (b - a - 1)

-- `x++` and `x--`.
abbrev pub succ : ℤ → ℤ
succ (pos n) = pos (suc n)
succ (negsuc zero) = pos 0
succ (negsuc (suc n)) = negsuc n

abbrev pub pred : ℤ → ℤ
pred (pos zero) = negsuc 0
pred (pos (suc n)) = pos n
pred (negsuc n) = negsuc (suc n)

-- `a < b`.
abbrev pub ltb_ℤ : ℤ → ℤ → Bool
ltb_ℤ a b = ltb (pos_part a + neg_part b) (pos_part b + neg_part a)

-- An `int` with these 32 bits.
abbrev pub from_bits : ℕ → ℤ
from_bits n = if ltb n 2147483648 then pos n else negsuc (4294967295 - n)

-- `x * n` of two `int`s. An overflow, which C leaves undefined, wraps here as the machine does.
abbrev pub mul_int : ℤ → ℕ → ℤ
mul_int (pos a) n = from_bits (a * n % 4294967296)
mul_int (negsuc a) n = from_bits ((4294967296 - (a + 1) * n % 4294967296) % 4294967296)
