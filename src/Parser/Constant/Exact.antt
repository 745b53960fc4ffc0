-- ===== src/Parser/Constant/Exact.antt =====
-- src/parser.cpp: what the outcomes of `evalConstI64` should be, over the integers without bounds.
pub mod Folding
use hlang.Base.{ℕ, ◌^◌, ◌≤◌, zero, suc, ◌≡◌, ◌≢◌, ◌⊎◌, Bool, true, false, ◌&&◌}
use hlang.Base.Int.{ℤ, pos, negsuc, ◌+ℤ◌, ◌-ℤ◌, ◌*ℤ◌, fits64}
use hlang.Base.Int.Division.{IsQuotient}
use hlang.Run.{Run, ok, undefined, out_of_fuel}
use hlang.Token.{Punct, minus, plus, tilde, bang, star, slash, percent, pow}
use hlang.Ast.{Expr, int_lit, char_lit, unary, binary}
use hlang.Parser.Constant.{Constant}

-- `v` is what a sign makes of the integer `x`.
abbrev pub ExactSign : Punct → ℤ → ℤ → Type 0
ExactSign minus x v = v ≡ pos 0 -ℤ x
ExactSign plus x v = v ≡ x
ExactSign tilde x v = v ≡ pos 0 -ℤ x -ℤ pos 1
ExactSign bang x v = ((x ≡ pos 0) × (v ≡ pos 1)) ⊎ ((x ≢ pos 0) × (v ≡ pos 0))
ExactSign _ x v = ⊥

-- the powers of an integer; a negative exponent gives 1
abbrev pub pow_ℤ : ℤ → ℕ → ℤ
pow_ℤ x zero = pos 1
pow_ℤ x (suc n) = pow_ℤ x n *ℤ x

abbrev pub ExactPower : ℤ → ℤ → ℤ → Type 0
ExactPower x (pos n) v = v ≡ pow_ℤ x n
ExactPower x (negsuc n) v = v ≡ pos 1

-- A power up to the one that is asked for is out of range, or the exponent cannot be counted down.
abbrev pub PowerTooLarge : ℤ → ℤ → Type 0
PowerTooLarge x (pos n) = (i : ℕ) × (i ≤ n) × (fits64 (pow_ℤ x i) ≡ false)
PowerTooLarge x (negsuc n) = 2 ^ 63 ≤ suc n

-- `v` is what an operator makes of the integers `x` and `y`.
abbrev pub Exact : Punct → ℤ → ℤ → ℤ → Type 0
Exact plus x y v = v ≡ x +ℤ y
Exact minus x y v = v ≡ x -ℤ y
Exact star x y v = v ≡ x *ℤ y
Exact slash x y v = (r : ℤ) × IsQuotient x y v r
Exact percent x y v = (q : ℤ) × IsQuotient x y q v
Exact pow x y v = ExactPower x y v
Exact _ x y v = ⊥

-- The result of an operator is out of the range of an `int64_t`; a remainder goes with its quotient,
-- and a power with those before it.
abbrev pub TooLarge : Punct → ℤ → ℤ → Type 0
TooLarge percent x y = (q : ℤ) × (r : ℤ) × IsQuotient x y q r × (fits64 q ≡ false)
TooLarge pow x y = PowerTooLarge x y
TooLarge p x y = (v : ℤ) × Exact p x y v × (fits64 v ≡ false)

-- `v` is the value of an expression over the integers.
abbrev pub Value : Expr → ℤ → Type 0
Value (int_lit l w) v = v ≡ w
Value (char_lit l w n) v = v ≡ w
Value (unary l p prefix a) v = (x : ℤ) × Value a x × ExactSign p x v
Value (binary l p a b) v = (x : ℤ) × (y : ℤ) × Value a x × Value b y × Exact p x y v
Value _ v = ⊥

abbrev pub is_division : Punct → Bool
is_division slash = true
is_division percent = true
is_division _ = false

-- Somewhere in an expression the value of a divisor is 0.
abbrev pub ZeroDivisor : Expr → Type 0
ZeroDivisor (unary l p prefix a) = ZeroDivisor a
ZeroDivisor (binary l p a b) =
    ZeroDivisor a ⊎ (ZeroDivisor b ⊎ ((is_division p ≡ true) × Value b (pos 0)))
ZeroDivisor _ = ⊥

-- Somewhere in an expression the operands have values, and the result is out of range.
abbrev pub Overflow : Expr → Type 0
Overflow (unary l minus prefix a) =
    Overflow a ⊎ ((x : ℤ) × Value a x × (fits64 (pos 0 -ℤ x) ≡ false))
Overflow (unary l _ prefix a) = Overflow a
Overflow (binary l p a b) =
    Overflow a ⊎ (Overflow b ⊎ ((x : ℤ) × (y : ℤ) × Value a x × Value b y × TooLarge p x y))
Overflow _ = ⊥

-- What an outcome says of an expression: a constant is its value, which is in range; a refusal is due
-- to a zero divisor; undefined behaviour is due to an overflow, or stands beside a zero divisor.
abbrev pub Explains : Expr → Run Constant → Type 0
Explains e (ok (v, true)) = Value e v × (fits64 v ≡ true)
Explains e (ok (v, false)) = ZeroDivisor e
Explains e undefined = Overflow e ⊎ ZeroDivisor e
Explains e out_of_fuel = ⊥

abbrev pub is_sign : Punct → Bool
is_sign minus = true
is_sign plus = true
is_sign tilde = true
is_sign bang = true
is_sign _ = false

abbrev pub is_basic : Punct → Bool
is_basic plus = true
is_basic minus = true
is_basic star = true
is_basic slash = true
is_basic percent = true
is_basic pow = true
is_basic _ = false

-- an expression over integers of 64 bits and these operators
abbrev pub basic : Expr → Bool
basic (int_lit l v) = fits64 v
basic (char_lit l v n) = fits64 v
basic (unary l p prefix a) = is_sign p && basic a
basic (binary l p a b) = is_basic p && (basic a && basic b)
basic _ = false
