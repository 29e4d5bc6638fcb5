-- ===== src/Base/Words.antt =====
-- Go's 64-bit integers: a `uint64`, and the bit pattern of an `int64`, is a number below 2 ^ 64.
use fuck.Base.Tests.{leb}
use fuck.Base.Int.{ℤ, pos, negsuc}
use Prim.Native.Nat.{ℕ, suc, ◌-◌, ◌%◌, ◌^◌}
use mathlib.Core.Bool.{Bool}

abbrev pub max_int64 : ℕ
max_int64 = 2 ^ 63 - 1

-- `uint64(c)` of an `int64`
abbrev pub to_uint64 : ℤ → ℕ
to_uint64 (pos n) = n % 2 ^ 64
to_uint64 (negsuc n) = 2 ^ 64 - 1 - n % 2 ^ 64

-- `-u` on `uint64`
abbrev pub neg_uint64 : ℕ → ℕ
neg_uint64 u = (2 ^ 64 - u) % 2 ^ 64

-- `x < 0` for the `int64` with bit pattern `u`
abbrev pub is_neg_int64 : ℕ → Bool
is_neg_int64 u = leb (2 ^ 63) u

abbrev pub is_neg : ℤ → Bool
is_neg (pos n) = Bool.false
is_neg (negsuc n) = Bool.true

-- the negation of a number, as an integer
abbrev pub negated : ℕ → ℤ
negated ℕ.zero = pos 0
negated (suc n) = negsuc n
