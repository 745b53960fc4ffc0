-- ===== src/Base/Int/Bounds.antt =====
-- Operations of `int64_t` that stay within its range.
use hlang.Base.{suc, ◌≡◌, refl, Bool, true, false, arith}
use native.Mathlib.Nat.{mod-le}
use hlang.Base.Int.{abs_ℤ, ℤ, pos, negsuc, fits64, not64, of_bool, remainder}

pub fits64-not64 : (a : ℤ) → fits64 a ≡ true → fits64 (not64 a) ≡ true
unfolding fits64 not64
fits64-not64 (pos n) h = h
fits64-not64 (negsuc n) h = h

pub fits64-of_bool : (b : Bool) → fits64 (of_bool b) ≡ true
unfolding fits64
fits64-of_bool true = refl
fits64-of_bool false = refl

-- the remainder is no further from 0 than the dividend
pub fits64-remainder : (a b : ℤ) → fits64 a ≡ true → fits64 (remainder a b) ≡ true
unfolding remainder fits64
fits64-remainder (pos n) b h = let le = mod-le n (abs_ℤ b) in ground (arith, le, h)
fits64-remainder (negsuc n) b h = let le = mod-le (suc n) (abs_ℤ b) in ground (arith, le, h)
