-- ===== src/Base/Int.antt =====
-- Signed integers over the native numbers, and the arithmetic of `int64_t`. An operation whose
-- result C++17 leaves undefined (overflow, a shift count out of range) gives `none`.
pub mod Bounds
pub mod Division
use Prim.Native.Nat.{bit_and, bit_or, bit_xor}
use Prim.Native.Nat.{ℕ, suc, ◌+◌, ◌-◌, ◌*◌, ◌/◌, ◌%◌, ◌^◌}
use mathlib.Core.Path.{◌≡◌}
use mathlib.Core.Bool.{Bool, true, ◌&&◌}
use mathlib.Core.Option.{Option, none, some}
use native.Mathlib.Omega.{arith}
use hlang.Base.Tests.{ltb, leb, ◌==◌, if◌then◌else◌}

-- `negsuc n` is -(n + 1).
pub data ℤ : Type 0 where
  pos : ℕ → ℤ
  negsuc : ℕ → ℤ

abbrev pub pos_part : ℤ → ℕ
pos_part (pos n) = n
pos_part (negsuc n) = 0

abbrev pub neg_part : ℤ → ℕ
neg_part (pos n) = 0
neg_part (negsuc n) = suc n

-- a - b, as an integer.
abbrev pub sub_ℕ : ℕ → ℕ → ℤ
sub_ℕ a b = if leb b a then pos (a - b) else negsuc (b - a - 1)

infixl 65 ◌+ℤ◌ ◌-ℤ◌
infixl 70 ◌*ℤ◌
unfoldable pub ◌+ℤ◌ : ℤ → ℤ → ℤ
a +ℤ b = sub_ℕ (pos_part a + pos_part b) (neg_part a + neg_part b)

unfoldable pub ◌-ℤ◌ : ℤ → ℤ → ℤ
a -ℤ b = sub_ℕ (pos_part a + neg_part b) (neg_part a + pos_part b)

unfoldable pub ◌*ℤ◌ : ℤ → ℤ → ℤ
a *ℤ b =
    sub_ℕ (pos_part a * pos_part b + neg_part a * neg_part b)
      (pos_part a * neg_part b + neg_part a * pos_part b)

abbrev pub ltb_ℤ : ℤ → ℤ → Bool
ltb_ℤ a b = ltb (pos_part a + neg_part b) (pos_part b + neg_part a)

abbrev pub eq_ℤ : ℤ → ℤ → Bool
eq_ℤ a b = pos_part a == pos_part b && neg_part a == neg_part b

abbrev pub abs_ℤ : ℤ → ℕ
abs_ℤ a = pos_part a + neg_part a

-- `(int64_t)` of a 64-bit pattern, and the pattern of a value
unfoldable pub signed64 : ℕ → ℤ
signed64 w = if ltb w (2 ^ 63) then pos w else negsuc (2 ^ 64 - w - 1)

unfoldable pub pattern64 : ℤ → ℕ
pattern64 (pos n) = n % 2 ^ 64
pattern64 (negsuc n) = (2 ^ 64 - 1 - n % 2 ^ 64) % 2 ^ 64

-- the values of an `int64_t`
unfoldable pub fits64 : ℤ → Bool
fits64 (pos n) = ltb n (2 ^ 63)
fits64 (negsuc n) = ltb n (2 ^ 63)

pub signed64-pattern64 : (a : ℤ) → fits64 a ≡ true → signed64 (pattern64 a) ≡ a
unfolding signed64 pattern64 fits64
signed64-pattern64 (pos n) h = ground arith
signed64-pattern64 (negsuc n) h = ground arith

-- The operations of C++ on `int64_t`, in a module of their own.
unfoldable pub checked : ℤ → Option ℤ
unfolding fits64
checked a = if fits64 a then some a else none

abbrev pub of_bool : Bool → ℤ
of_bool b = if b then pos 1 else pos 0

abbrev pub is_true : ℤ → Bool
is_true (pos n) = ltb 0 n
is_true (negsuc n) = true

-- truncation towards zero; the caller has excluded a zero divisor
unfoldable pub quot : ℤ → ℤ → ℤ
unfolding ◌*ℤ◌
quot a b =
    let q = abs_ℤ a / abs_ℤ b in
    if (ltb_ℤ a (pos 0))
    then (if ltb_ℤ b (pos 0) then pos q else sub_ℕ 0 q)
    else if ltb_ℤ b (pos 0)
    then sub_ℕ 0 q
    else pos q

-- the remainder has the sign of the dividend
unfoldable pub remainder : ℤ → ℤ → ℤ
remainder a b = let r = abs_ℤ a % abs_ℤ b in if ltb_ℤ a (pos 0) then sub_ℕ 0 r else pos r

unfoldable pub add64 : ℤ → ℤ → Option ℤ
unfolding checked ◌+ℤ◌
add64 a b = checked (a +ℤ b)

unfoldable pub sub64 : ℤ → ℤ → Option ℤ
unfolding checked ◌-ℤ◌
sub64 a b = checked (a -ℤ b)

unfoldable pub mul64 : ℤ → ℤ → Option ℤ
unfolding checked ◌*ℤ◌
mul64 a b = checked (a *ℤ b)

unfoldable pub neg64 : ℤ → Option ℤ
unfolding checked
neg64 a = checked (sub_ℕ (neg_part a) (pos_part a))

-- `a / b` and `a % b`: both are undefined where the quotient is out of range
unfoldable pub div64 : ℤ → ℤ → Option ℤ
unfolding checked quot
div64 a b = checked (quot a b)

unfoldable pub rem64 : ℤ → ℤ → Option ℤ
unfolding fits64 quot remainder
rem64 a b = if fits64 (quot a b) then some (remainder a b) else none

-- `a << b` on signed operands: a negative `a` or a count out of range is undefined, and so is a
-- result that does not fit 64 bits
unfoldable pub shl64 : ℤ → ℤ → Option ℤ
unfolding signed64
shl64 (pos a) (pos b) =
    if ltb b 64 && ltb (a * 2 ^ b) (2 ^ 64) then some (signed64 (a * 2 ^ b)) else none
shl64 _ _ = none

-- an arithmetic shift
abbrev shift_right : ℤ → ℕ → ℤ
shift_right (pos a) b = pos (a / 2 ^ b)
shift_right (negsuc a) b = negsuc (a / 2 ^ b)

unfoldable pub shr64 : ℤ → ℤ → Option ℤ
shr64 a (pos b) = if ltb b 64 then some (shift_right a b) else none
shr64 a (negsuc b) = none

unfoldable pub and64 : ℤ → ℤ → ℤ
unfolding signed64 pattern64
and64 a b = signed64 (bit_and (pattern64 a) (pattern64 b))

unfoldable pub or64 : ℤ → ℤ → ℤ
unfolding signed64 pattern64
or64 a b = signed64 (bit_or (pattern64 a) (pattern64 b))

unfoldable pub xor64 : ℤ → ℤ → ℤ
unfolding signed64 pattern64
xor64 a b = signed64 (bit_xor (pattern64 a) (pattern64 b))

-- `~a`
unfoldable pub not64 : ℤ → ℤ
not64 (pos n) = negsuc n
not64 (negsuc n) = pos n
