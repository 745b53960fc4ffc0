-- ===== src/Lexer/CondOps.antt =====
-- src/lexer.cpp: the operators of `struct CondEval`, tier by tier. Where C++ leaves an `int64_t`
-- operation undefined the outcome is `undefined`.
use hlang.Base.{
  ℕ, zero, suc, ◌-◌, ◌^◌, ltb, Bool, true, false, not, ◌&&◌, ◌||◌, List, [], ◌∷◌, if◌then◌else◌,
  Option, none, some,
}
use hlang.Base.Int.{
  ℤ, pos, negsuc, ltb_ℤ, eq_ℤ, of_bool, is_true, add64, sub64, mul64, div64, rem64, shl64, shr64,
  and64, or64, xor64,
}
use hlang.Run.{Run, ok, undefined}
use hlang.Token.{
  Token, Punct, is, minus, plus, shl, shr, pow, star, slash, percent, amp, caret, pipe, lt, gt, le,
  ge, eq_eq, ne, and_and, xor_xor, or_or,
}

-- What an operator of a tier makes of its two operands: a value and an error, undefined, or no
-- operator of the tier (none).
abbrev pub Apply : Type 0
Apply = ℤ → ℤ → Run (ℤ × Bool)

abbrev pub pure : Option ℤ → Run (ℤ × Bool)
pure o = elim o [ none ↦ undefined | some v ↦ ok (v, false) ]

-- `int64_t r = 1; while (e-- > 0) r *= v;`
unfoldable pub power_loop : ℕ → ℤ → ℤ → Option ℤ
unfolding mul64
power_loop zero v r = some r
power_loop (suc n) v r = elim (mul64 r v) [ none ↦ none | some s ↦ power_loop n v s ]

-- The test counts the exponent down also where it fails, which overflows at -(2 ^ 63).
unfoldable pub power : ℤ → ℤ → Option ℤ
unfolding power_loop
power v (pos n) = power_loop n v (pos 1)
power v (negsuc n) = if ltb n (2 ^ 63 - 1) then some (pos 1) else none

-- a division, whose zero divisor sets `err`
abbrev pub dividing : (ℤ → ℤ → Option ℤ) → Apply
dividing f v d = if eq_ℤ d (pos 0) then ok (pos 0, true) else pure (f v d)

abbrev pub total : (ℤ → ℤ → ℤ) → Apply
total f v w = ok (f v w, false)

abbrev pub test : (ℤ → ℤ → Bool) → Apply
test f v w = ok (of_bool (f v w), false)

-- the operators of `tier1` and `tier2`
unfoldable pub shift_ops : Token → Option Apply
unfolding is power shl64 shr64
shift_ops t =
    if is shl t
    then some (λ v w. pure (shl64 v w))
    else if is shr t
    then some (λ v w. pure (shr64 v w))
    else if is pow t
    then some (λ v w. pure (power v w))
    else none

unfoldable pub mul_ops : Token → Option Apply
unfolding is mul64 div64 rem64
mul_ops t =
    if is star t
    then some (λ v w. pure (mul64 v w))
    else if is slash t
    then some (dividing div64)
    else if is percent t
    then some (dividing rem64)
    else none

-- the operators of `tierAnd`, `tierXor`, `tierOr`, `tierLAnd`, `tierLXor` and `expr`
unfoldable pub single_op : Punct → Apply → Token → Option Apply
unfolding is
single_op p f t = if is p t then some f else none

-- the operators of `tierAdd`, `tierRel` and `tierEq`
unfoldable pub add_ops : Token → Option Apply
unfolding is add64 sub64
add_ops t =
    if is plus t
    then some (λ v w. pure (add64 v w))
    else if is minus t
    then some (λ v w. pure (sub64 v w))
    else none

unfoldable pub rel_ops : Token → Option Apply
unfolding is
rel_ops t =
    if is lt t
    then some (test (λ v w. ltb_ℤ v w))
    else if is gt t
    then some (test (λ v w. ltb_ℤ w v))
    else if is le t
    then some (test (λ v w. not (ltb_ℤ w v)))
    else if is ge t
    then some (test (λ v w. not (ltb_ℤ v w)))
    else none

unfoldable pub eq_ops : Token → Option Apply
unfolding is
eq_ops t =
    if is eq_eq t
    then some (test eq_ℤ)
    else if is ne t
    then some (test (λ v w. not (eq_ℤ v w)))
    else none

abbrev pub both : ℤ → ℤ → Bool
both v w = is_true v && is_true w

abbrev pub either : ℤ → ℤ → Bool
either v w = is_true v || is_true w

abbrev pub one_of : ℤ → ℤ → Bool
one_of v w = if is_true v then not (is_true w) else is_true w

-- The tiers, from the operators that bind tightest: `tier1`, `tier2`, `tierAnd`, `tierXor`, `tierOr`,
-- `tierAdd`, `tierRel`, `tierEq`, `tierLAnd`, `tierLXor`, and the loop of `expr`.
unfoldable pub tiers : List (Token → Option Apply)
unfolding shift_ops mul_ops single_op add_ops rel_ops eq_ops and64 or64 xor64
tiers =
    shift_ops
    ∷ mul_ops
    ∷ single_op amp (total and64)
    ∷ single_op caret (total xor64)
    ∷ single_op pipe (total or64)
    ∷ add_ops
    ∷ rel_ops
    ∷ eq_ops
    ∷ single_op and_and (test both)
    ∷ single_op xor_xor (test one_of)
    ∷ single_op or_or (test either)
    ∷ []
