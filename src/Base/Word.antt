-- ===== src/Base/Word.antt =====
-- C's `int` as a bit pattern below 2 ^ 32 in two's complement.
use Prim.Native.Nat.{ℕ, ◌+◌, ◌-◌, ◌%◌, ◌<◌}
use mathlib.Core.Path.{◌≡◌}
use mathlib.Core.Bool.{Bool}
use native.Mathlib.Omega.{arith}
use os.Base.Tests.{ltb}

abbrev pub modulus : ℕ
modulus = 4294967296

abbrev pub sign_bit : ℕ
sign_bit = 2147483648

abbrev pub add_int : ℕ → ℕ → ℕ
add_int a b = (a + b) % 4294967296

abbrev pub sub_int : ℕ → ℕ → ℕ
sub_int a b = (a + 4294967296 - b) % 4294967296

-- `a < b` on signed values: the order of the patterns with the sign bit flipped.
abbrev pub lt_int : ℕ → ℕ → Bool
lt_int a b = ltb ((a + 2147483648) % 4294967296) ((b + 2147483648) % 4294967296)

pub add_int_assoc : (a b c : ℕ) → add_int (add_int a b) c ≡ add_int a (add_int b c)
add_int_assoc a b c = omega arith

pub add_int_comm : (a b : ℕ) → add_int a b ≡ add_int b a
add_int_comm a b = omega arith

pub add_int_left_comm : (a b c : ℕ) → add_int a (add_int b c) ≡ add_int b (add_int a c)
add_int_left_comm a b c = omega arith

pub add_int-sub_int : (a b : ℕ) → a < modulus → b < modulus → add_int (sub_int a b) b ≡ a
add_int-sub_int a b h k = omega arith
