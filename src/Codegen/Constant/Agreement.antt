-- ===== src/Codegen/Constant/Agreement.antt =====
-- src/codegen.cpp, src/parser.cpp: `evalConst` and `evalConstI64` agree.
use hlang.Base.{
  ℕ, ◌≡◌, refl, Bool, true, false, ◌&&◌, Bytes, Option, none, some, arith, if◌then◌else◌,
}
use hlang.Base.Int.{ℤ, pos, eq_ℤ, neg64, add64, sub64, mul64, div64, rem64, shr64}
use mathlib.Core.Path.{subst}
use hlang.Lexer.CondOps.{power}
use hlang.Run.{Run, ok, undefined, out_of_fuel, ◌>>=◌}
use hlang.Token.{
  Punct, minus, plus, tilde, bang, star, slash, percent, shl, shr, amp, pipe, caret, pow,
}
use hlang.Ast.{Expr, Store, int_lit, char_lit, float_lit, sizeof_type, size, unary, binary}
use hlang.Parser.Constant
use hlang.Parser.Constant.{unary_value, binary_value, combine, defined, refuse, low_six}
use hlang.Codegen.Constant.{Value, given, and_then, unary_const, binary_const, eval_const}

-- no operator stands behind its operand
unfoldable pub prefixed : Expr → Bool
prefixed (unary l p prefix a) = prefix && prefixed a
prefixed (binary l p a b) = prefixed a && prefixed b
prefixed _ = true

-- What is a constant for the parser is the same constant for the code generator.
abbrev pub Same : Run (ℤ × Bool) → Value → Type 0
Same (ok (v, true)) r = r ≡ ok (some v)
Same _ r = Unit

Same-given : (o : Option ℤ) → Same (defined o true) (given o)
Same-given none = tt
Same-given (some v) = refl

Same-unary : (p : Punct) (v : ℤ) → Same (unary_value p (v, true)) (unary_const p v)
unfolding unary_value unary_const
Same-unary minus v = Same-given (neg64 v)
Same-unary plus v = refl
Same-unary tilde v = refl
Same-unary bang v = refl
Same-unary _ v = tt

Same-division :
    (b : Bool) (o : Option ℤ)
    → Same (if b then refuse else defined o true) (if b then ok none else given o)
Same-division true o = tt
Same-division false o = Same-given o

Same-binary : (p : Punct) (v w : ℤ) → Same (binary_value p v w) (binary_const p v w)
unfolding binary_value binary_const
Same-binary plus v w = Same-given (add64 v w)
Same-binary minus v w = Same-given (sub64 v w)
Same-binary star v w = Same-given (mul64 v w)
Same-binary slash v w = Same-division (eq_ℤ w (pos 0)) (div64 v w)
Same-binary percent v w = Same-division (eq_ℤ w (pos 0)) (rem64 v w)
Same-binary shl v w = refl
Same-binary shr v w = Same-given (shr64 v (pos (low_six w)))
Same-binary amp v w = refl
Same-binary pipe v w = refl
Same-binary caret v w = refl
Same-binary pow v w = Same-given (power v w)
Same-binary _ v w = tt

-- both operands, of which the code generator takes the second only behind a constant
Same-combine :
    (p : Punct) (r s : Run (ℤ × Bool)) (r' s' : Value)
    → Same r r'
    → Same s s'
    → Same
        (r >>= λ x. s >>= λ y. combine p x y)
        (and_then r' λ v. and_then s' λ w. binary_const p v w)
unfolding combine
Same-combine p (ok (v, true)) (ok (w, true)) r' s' h k = rw (h, k) (Same-binary p v w)
Same-combine p (ok (v, true)) (ok (w, false)) r' s' h k = tt
Same-combine p (ok (v, true)) undefined r' s' h k = tt
Same-combine p (ok (v, true)) out_of_fuel r' s' h k = tt
Same-combine p (ok (v, false)) (ok (w, x)) r' s' h k = tt
Same-combine p (ok (v, false)) undefined r' s' h k = tt
Same-combine p (ok (v, false)) out_of_fuel r' s' h k = tt
Same-combine p undefined s r' s' h k = tt
Same-combine p out_of_fuel s r' s' h k = tt

Same-unfit : (p : Punct) (v : ℤ) (r : Value) → Same (unary_value p (v, false)) r
unfolding unary_value
Same-unfit minus v r = by_result (neg64 v)
  where
    by_result : (o : Option ℤ) → Same (defined o false) r
    by_result none = tt
    by_result (some w) = tt
Same-unfit plus v r = tt
Same-unfit tilde v r = tt
Same-unfit bang v r = tt
Same-unfit _ v r = tt

Same-sign :
    (p : Punct) (r : Run (ℤ × Bool)) (r' : Value)
    → Same r r'
    → Same (r >>= unary_value p) (and_then r' (unary_const p))
unfolding unary_value
Same-sign p (ok (v, true)) r' h = rw h (Same-unary p v)
Same-sign p (ok (v, false)) r' h = Same-unfit p v _
Same-sign p undefined r' h = tt
Same-sign p out_of_fuel r' h = tt

-- The types whose sizes an expression asks for have the same sizes in two stores of classes.
abbrev pub SameSizes : Store → Store → Expr → Type 0
SameSizes parsing generating (sizeof_type l ty) = size parsing ty ≡ size generating ty
SameSizes parsing generating (unary l p prefix a) = SameSizes parsing generating a
SameSizes parsing generating (binary l p a b) =
    SameSizes parsing generating a × SameSizes parsing generating b
SameSizes parsing generating _ = Unit {0}

-- The classes as they are where the parser folds the expression, and where the code generator does.
module _ (float_int : Bytes → Option ℤ) (parsing generating : Store) (classes : Bytes → Option ℕ)
    (depth : ℕ) where
  Same-eval :
      (e : Expr)
      → prefixed e ≡ true
      → SameSizes parsing generating e
      → Same
          (Constant.eval_const float_int parsing e)
          (eval_const float_int generating classes depth e)
  unfolding Constant.eval_const eval_const prefixed
  Same-eval (int_lit l v) h q = refl
  Same-eval (char_lit l v n) h q = refl
  Same-eval (float_lit l t) h q = Same-given (float_int t)
  Same-eval (sizeof_type l ty) h q = rw q (Same-given (size generating ty))
  Same-eval (unary l p true a) h q = Same-sign p _ _ (Same-eval a h q)
  Same-eval (unary l p false a) h q = absurd (ground (arith, h))
  Same-eval (binary l p a b) h q =
      Same-combine p _ _ _ _ (Same-eval a (ground (arith, h)) q.0)
        (Same-eval b (ground (arith, h)) q.1)
  Same-eval _ h q = tt

  -- What the parser takes for the constant dimension of an array has the same value for the code
  -- generator, for an expression whose unary operators all stand before their operands, and whose
  -- types in `sizeof` have the same sizes for both: a class that the parser has not completed yet
  -- may get another.
  pub eval_const-agrees :
      (e : Expr) (v : ℤ)
      → prefixed e ≡ true
      → SameSizes parsing generating e
      → Constant.eval_const float_int parsing e ≡ ok (v, true)
      → eval_const float_int generating classes depth e ≡ ok (some v)
  eval_const-agrees e v h q k =
      subst (λ r. Same r (eval_const float_int generating classes depth e)) k (Same-eval e h q)
