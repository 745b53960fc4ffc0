-- ===== src/Codegen/Types/Constants.antt =====
-- src/codegen.cpp: the type of a constant.
use hlang.Base.{ℕ, ◌≡◌, refl, Bool, true, false, ◌&&◌, Bytes, Option, none, some, arith}
use hlang.Base.Int.{ℤ}
use hlang.Run.{ok, undefined, out_of_fuel}
use hlang.Token.{Punct, minus, plus, tilde, bang}
use hlang.Ast.{
  Ty, Expr, Store, int_lit, float_lit, char_lit, sizeof_type, offset_of, cast, unary, binary, i64,
}
use hlang.Codegen.Constant.{Value, and_then, unary_const, eval_const}
use hlang.Codegen.Types.{Scopes, unary_type, type_of}

-- no floating literal and no cast
unfoldable pub integral : Expr → Bool
integral (float_lit l t) = false
integral (cast l a ty) = false
integral (unary l p prefix a) = integral a
integral (binary l p a b) = integral a && integral b
integral _ = true

and_then-some :
    (r : Value) (k : ℤ → Value) (v : ℤ)
    → and_then r k ≡ ok (some v)
    → (w : ℤ) × (r ≡ ok (some w)) × (k w ≡ ok (some v))
and_then-some (ok none) k v h = absurd (cc h)
and_then-some (ok (some w)) k v h = (w, refl, h)
and_then-some undefined k v h = absurd (cc h)
and_then-some out_of_fuel k v h = absurd (cc h)

unary-i64 : (p : Punct) (w v : ℤ) → unary_const p w ≡ ok (some v) → unary_type p (ok i64) ≡ ok i64
unfolding unary_const
unary-i64 minus w v h = refl
unary-i64 plus w v h = refl
unary-i64 tilde w v h = refl
unary-i64 bang w v h = refl
unary-i64 _ w v h = absurd (cc h)

module _ (float_int : Bytes → Option ℤ) (store : Store) (classes : Bytes → Option ℕ) (depth : ℕ)
    (scope : Scopes) (funcs : Bytes → Option Ty) where
  -- A constant in which there is no floating literal and no cast has the type `I64`.
  pub type_of-constant :
      (e : Expr) (v : ℤ)
      → integral e ≡ true
      → eval_const float_int store classes depth e ≡ ok (some v)
      → type_of store scope funcs depth e ≡ ok i64
  unfolding eval_const type_of integral
  type_of-constant (int_lit l w) v h k = refl
  type_of-constant (char_lit l w n) v h k = refl
  type_of-constant (float_lit l t) v h k = absurd (cc h)
  type_of-constant (cast l a ty) v h k = absurd (cc h)
  type_of-constant (sizeof_type l ty) v h k = refl
  type_of-constant (offset_of l c m cls) v h k = refl
  type_of-constant (unary l p false a) v h k = absurd (cc k)
  type_of-constant (unary l p true a) v h k =
      let (w, ea, eb) = and_then-some _ _ v k in
      rw (type_of-constant a w h ea, unary-i64 p w v eb) refl
  type_of-constant (binary l p a b) v h k =
      let ha : integral a ≡ true = ground (arith, h) in
      let hb : integral b ≡ true = ground (arith, h) in
      let (w, ea, eb) = and_then-some (eval_const float_int store classes depth a) _ v k in
      let (x, ec, ed) = and_then-some (eval_const float_int store classes depth b) _ v eb in
      rw (type_of-constant a w ha ea, type_of-constant b x hb ec) refl
  type_of-constant _ v h k = absurd (cc k)
