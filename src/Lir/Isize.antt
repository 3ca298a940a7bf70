-- ===== src/Lir/Isize.antt =====
-- `isize` of a 64-bit target, as src/lir/const_fold.rs uses it. `none` is the panic on an overflow
-- or a division by zero, of a build with overflow checks.
use Prim.Native.Nat.{bit_and, bit_or, bit_xor}
use enumc.Prelude.{
  ℕ, zero, suc, ◌+◌, ◌-◌, ◌*◌, ◌/◌, ◌%◌, ◌^◌, Bool, true, false, not, Option, none, some, ltb, leb,
  if◌then◌else◌,
}

-- `negsuc n` is -(n + 1).
pub data ℤ : Type 0 where
  pos negsuc : ℕ → ℤ

-- The integer is an `isize`.
abbrev pub in_range : ℤ → Bool
in_range (pos n) = ltb n (2 ^ 63)
in_range (negsuc n) = ltb n (2 ^ 63)

abbrev pub checked : ℤ → Option ℤ
checked z = if in_range z then some z else none

abbrev pub magnitude : ℤ → ℕ
magnitude (pos n) = n
magnitude (negsuc n) = suc n

abbrev pub is_negative : ℤ → Bool
is_negative (pos n) = false
is_negative (negsuc n) = true

-- `n` with a sign
abbrev pub signed : Bool → ℕ → ℤ
signed false n = pos n
signed true zero = pos 0
signed true (suc n) = negsuc n

-- m - n
abbrev pub sub_ℕ : ℕ → ℕ → ℤ
sub_ℕ m n = if leb n m then pos (m - n) else negsuc (n - m - 1)

infixl 65 ◌+ℤ◌
unfoldable pub ◌+ℤ◌ : ℤ → ℤ → ℤ
pos m +ℤ pos n = pos (m + n)
pos m +ℤ negsuc n = sub_ℕ m (suc n)
negsuc m +ℤ pos n = sub_ℕ n (suc m)
negsuc m +ℤ negsuc n = negsuc (suc (m + n))

abbrev pub neg : ℤ → ℤ
neg z = signed (not (is_negative z)) (magnitude z)

abbrev pub differ : Bool → Bool → Bool
differ true b = not b
differ false b = b

infixl 70 ◌*ℤ◌
unfoldable pub ◌*ℤ◌ : ℤ → ℤ → ℤ
a *ℤ b = signed (differ (is_negative a) (is_negative b)) (magnitude a * magnitude b)

-- The two's complement, a number below 2 ^ 64, and back.
abbrev pub bits : ℤ → ℕ
bits (pos n) = n
bits (negsuc n) = 2 ^ 64 - 1 - n

abbrev pub of_bits : ℕ → ℤ
of_bits n = if ltb n (2 ^ 63) then pos n else negsuc (2 ^ 64 - 1 - n)

unfoldable pub add : ℤ → ℤ → Option ℤ
add a b = checked (a +ℤ b)

unfoldable pub sub : ℤ → ℤ → Option ℤ
sub a b = checked (a +ℤ neg b)

unfoldable pub mul : ℤ → ℤ → Option ℤ
mul a b = checked (a *ℤ b)

-- Division rounds towards zero.
unfoldable pub div : ℤ → ℤ → Option ℤ
div a (pos zero) = none
div a (pos (suc n)) = checked (signed (is_negative a) (magnitude a / suc n))
div a (negsuc n) = checked (signed (not (is_negative a)) (magnitude a / suc n))

-- The remainder has the sign of `a`; it overflows where the quotient does.
unfoldable pub rem : ℤ → ℤ → Option ℤ
rem a b = elim (div a b) [
  | none ↦ none
  | some q ↦ some (signed (is_negative a) (magnitude a % magnitude b))
]

unfoldable pub shl : ℤ → ℤ → Option ℤ
shl a (negsuc n) = none
shl a (pos n) = if ltb n 64 then some (of_bits (bits a * 2 ^ n % 2 ^ 64)) else none

-- The shift to the right copies the sign.
unfoldable pub shr : ℤ → ℤ → Option ℤ
shr a (negsuc n) = none
shr (pos m) (pos n) = if ltb n 64 then some (pos (m / 2 ^ n)) else none
shr (negsuc m) (pos n) = if ltb n 64 then some (negsuc (m / 2 ^ n)) else none

unfoldable pub and : ℤ → ℤ → ℤ
and a b = of_bits (bit_and (bits a) (bits b))

unfoldable pub or : ℤ → ℤ → ℤ
or a b = of_bits (bit_or (bits a) (bits b))

unfoldable pub xor : ℤ → ℤ → ℤ
xor a b = of_bits (bit_xor (bits a) (bits b))

unfoldable pub complement : ℤ → ℤ
complement (pos n) = negsuc n
complement (negsuc n) = pos n

-- By the order of the integers.
unfoldable pub lt : ℤ → ℤ → Bool
lt (pos m) (pos n) = ltb m n
lt (pos m) (negsuc n) = false
lt (negsuc m) (pos n) = true
lt (negsuc m) (negsuc n) = ltb n m
