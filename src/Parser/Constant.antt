-- ===== src/Parser/Constant.antt =====
-- src/parser.cpp: `evalConstI64`, the value of an array dimension.
pub mod Agreement
pub mod Exact
use hlang.Base.{ℕ, Bool, true, false, not, ◌%◌, if◌then◌else◌, Bytes, Option, none, some}
use hlang.Base.Int.{
  ℤ, pos, negsuc, eq_ℤ, of_bool, is_true, add64, sub64, mul64, neg64, div64, rem64, shr64, and64,
  or64, xor64, not64, pattern64, signed64,
}
use hlang.Base.{◌*◌, ◌^◌}
use hlang.Run.{Run, ok, undefined, ◌>>=◌}
use hlang.Token.{
  Punct, minus, plus, tilde, bang, star, slash, percent, shl, shr, amp, pipe, caret, pow,
}
use hlang.Ast.{Expr, int_lit, float_lit, char_lit, sizeof_type, unary, binary, size, Store}
use hlang.Lexer.CondOps.{power}

-- the value, and `*ok`
abbrev pub Constant : Type 0
Constant = ℤ × Bool

abbrev pub defined : Option ℤ → Bool → Run Constant
defined o fine = elim o [ none ↦ undefined | some v ↦ ok (v, fine) ]

abbrev pub refuse : Run Constant
refuse = ok (pos 0, false)

-- the switch over a unary operator
unfoldable pub unary_value : Punct → Constant → Run Constant
unfolding neg64 not64
unary_value minus (v, fine) = defined (neg64 v) fine
unary_value plus (v, fine) = ok (v, fine)
unary_value tilde (v, fine) = ok (not64 v, fine)
unary_value bang (v, fine) = ok (of_bool (not (is_true v)), fine)
unary_value _ c = refuse

-- `b & 63`
abbrev pub low_six : ℤ → ℕ
low_six b = pattern64 b % 64

-- The switch over a binary operator, where both operands are constants. A left shift is made on the
-- unsigned value; counts are masked to six bits.
unfoldable pub binary_value : Punct → ℤ → ℤ → Run Constant
unfolding add64 sub64 mul64 div64 rem64 pattern64 signed64 shr64 and64 or64 xor64 power
binary_value plus a b = defined (add64 a b) true
binary_value minus a b = defined (sub64 a b) true
binary_value star a b = defined (mul64 a b) true
binary_value slash a b = if eq_ℤ b (pos 0) then refuse else defined (div64 a b) true
binary_value percent a b = if eq_ℤ b (pos 0) then refuse else defined (rem64 a b) true
binary_value shl a b = ok (signed64 ((pattern64 a * 2 ^ low_six b) % 2 ^ 64), true)
binary_value shr a b = defined (shr64 a (pos (low_six b))) true
binary_value amp a b = ok (and64 a b, true)
binary_value pipe a b = ok (or64 a b, true)
binary_value caret a b = ok (xor64 a b, true)
binary_value pow a b = defined (power a b) true
binary_value _ a b = refuse

-- `if (!*ok) return 0;`
unfoldable pub combine : Punct → Constant → Constant → Run Constant
unfolding binary_value
combine p (a, x) (b, y) = if x then (if y then binary_value p a b else refuse) else refuse

module _ (float_int : Bytes → Option ℤ) (store : Store) where
  -- `evalConstI64`, whose flag starts as true
  unfoldable pub eval_const : Expr → Run Constant
  unfolding size unary_value combine
  eval_const (int_lit l v) = ok (v, true)
  eval_const (char_lit l v n) = ok (v, true)
  eval_const (float_lit l t) = defined (float_int t) true
  eval_const (sizeof_type l ty) = defined (size store ty) true
  eval_const (unary l p prefix a) = eval_const a >>= unary_value p
  eval_const (binary l p a b) =
      let right = eval_const b in eval_const a >>= λ x. right >>= λ y. combine p x y
  eval_const _ = refuse
