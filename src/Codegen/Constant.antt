-- ===== src/Codegen/Constant.antt =====
-- src/codegen.cpp: `evalConst`, the value of a constant expression, and `typeOf`, the type that an
-- expression has without its code. In an outcome that is `ok`, `none` is the result false.
pub mod Agreement
pub mod Casts
use hlang.Base.{
  ℕ, ◌+◌, ◌-◌, ◌*◌, ◌%◌, ◌^◌, Bool, true, false, not, ◌&&◌, ◌||◌, if◌then◌else◌, ◌==◌, ltb, leb,
  Bytes, Option, none, some,
}
use hlang.Base.Int.{
  ℤ, pos, negsuc, eq_ℤ, ltb_ℤ, of_bool, is_true, add64, sub64, mul64, neg64, div64, rem64, shr64,
  and64, or64, xor64, not64, pattern64, signed64,
}
use hlang.Run.{Run, ok, undefined, out_of_fuel, ◌>>=◌}
use hlang.Token.{
  Punct, minus, plus, tilde, bang, star, slash, percent, shl, shr, amp, pipe, caret, pow, and_and,
  or_or, xor_xor, eq_eq, ne, lt, gt, le, ge,
}
use hlang.Ast.{
  Ty, int, Expr, int_lit, float_lit, char_lit, sizeof_type, offset_of, cast, unary, binary, size,
  Store, find_member,
}
use hlang.Lexer.CondOps.{power}

abbrev pub Value : Type 0
Value = Run (Option ℤ)

abbrev pub given : Option ℤ → Value
given o = elim o [ none ↦ undefined | some v ↦ ok (some v) ]

abbrev pub truth : Bool → Value
truth b = ok (some (of_bool b))

abbrev pub and_then : Value → (ℤ → Value) → Value
and_then r k = r >>= λ x. elim x [ none ↦ ok none | some v ↦ k v ]

-- the switch over a unary operator
unfoldable pub unary_const : Punct → ℤ → Value
unfolding neg64 not64
unary_const minus v = given (neg64 v)
unary_const plus v = ok (some v)
unary_const tilde v = ok (some (not64 v))
unary_const bang v = truth (not (is_true v))
unary_const _ v = ok none

-- `c & 63`
abbrev pub low_six : ℤ → ℕ
low_six b = pattern64 b % 64

-- the switch over a binary operator
unfoldable pub binary_const : Punct → ℤ → ℤ → Value
unfolding add64 sub64 mul64 div64 rem64 pattern64 signed64 shr64 and64 or64 xor64 power
binary_const plus a c = given (add64 a c)
binary_const minus a c = given (sub64 a c)
binary_const star a c = given (mul64 a c)
binary_const slash a c = if eq_ℤ c (pos 0) then ok none else given (div64 a c)
binary_const percent a c = if eq_ℤ c (pos 0) then ok none else given (rem64 a c)
binary_const shl a c = ok (some (signed64 ((pattern64 a * 2 ^ low_six c) % 2 ^ 64)))
binary_const shr a c = given (shr64 a (pos (low_six c)))
binary_const amp a c = ok (some (and64 a c))
binary_const pipe a c = ok (some (or64 a c))
binary_const caret a c = ok (some (xor64 a c))
binary_const and_and a c = truth (is_true a && is_true c)
binary_const or_or a c = truth (is_true a || is_true c)
binary_const xor_xor a c = truth (if is_true a then not (is_true c) else is_true c)
binary_const eq_eq a c = truth (eq_ℤ a c)
binary_const ne a c = truth (not (eq_ℤ a c))
binary_const lt a c = truth (ltb_ℤ a c)
binary_const gt a c = truth (ltb_ℤ c a)
binary_const le a c = truth (not (ltb_ℤ c a))
binary_const ge a c = truth (not (ltb_ℤ a c))
binary_const pow a c = given (power a c)
binary_const _ a c = ok none

-- The value of a constant after a cast to an integer of fewer than eight bytes: the low bits, with
-- the sign in front.
unfoldable pub narrow : ℕ → Bool → ℤ → ℤ
unfolding pattern64 signed64
narrow n is_unsigned x =
    let bits = n * 8 in
    let v = pattern64 x % 2 ^ bits in
    signed64 (if not is_unsigned && leb (2 ^ (bits - 1)) v then v + (2 ^ 64 - 2 ^ bits) else v)

unfoldable pub cast_const : Ty → ℤ → ℤ
unfolding narrow
cast_const (int n u) x = if ltb 0 n && ltb n 8 then narrow n u x else x
cast_const _ x = x

-- The conversion of a floating literal to an integer is `float_int`, the classes of the program by
-- name are `classes`, and a chain of base classes is followed over the fuel `depth`.
module _ (float_int : Bytes → Option ℤ) (store : Store) (classes : Bytes → Option ℕ)
    (depth : ℕ) where
  abbrev pub offset_const : Option ℕ → Bytes → Value
  offset_const cls n = elim cls [
    | none ↦ ok none
    | some k ↦
        find_member depth store k n >>= λ m. elim m [ none ↦ ok none | some f ↦ ok (some f.offset) ]
  ]

  -- `evalConst`, of an expression that is not null
  unfoldable pub eval_const : Expr → Value
  unfolding find_member size cast_const unary_const binary_const
  eval_const (int_lit l v) = ok (some v)
  eval_const (char_lit l v n) = ok (some v)
  eval_const (float_lit l t) = given (float_int t)
  eval_const (sizeof_type l ty) = given (size store ty)
  eval_const (offset_of l c m cls) =
      offset_const (elim cls [ none ↦ classes c | some k ↦ some k ]) m
  eval_const (cast l a ty) = and_then (eval_const a) λ v. ok (some (cast_const ty v))
  eval_const (unary l p prefix a) =
      let v = and_then (eval_const a) (unary_const p) in if prefix then v else ok none
  eval_const (binary l p a b) =
      let right = eval_const b in
      and_then (eval_const a) λ v. and_then right λ w. binary_const p v w
  eval_const _ = ok none
