-- ===== src/Parser/Constant/Exact/Folding.antt =====
-- src/parser.cpp: `evalConstI64` folds constants as the integers without bounds have it.
use hlang.Base.{
  and_both, ℕ, ◌+◌, ◌-◌, ◌^◌, ◌≤◌, ap, ltb, zero, suc, ◌≡◌, inl, inr, refl, Bool, true, false, ◌&&◌,
  Bytes, Option, none, some, arith, not, if-elim,
}
use hlang.Base.Int.{
  ℤ, pos, negsuc, neg_part, pos_part, sub_ℕ, ◌+ℤ◌, ◌-ℤ◌, ◌*ℤ◌, eq_ℤ, of_bool, fits64, checked, quot,
  remainder, add64, sub64, mul64, neg64, div64, rem64, is_true, not64,
}
use hlang.Lexer.CondOps.{power, power_loop}
use hlang.Base.Int.Bounds.{fits64-remainder, fits64-not64, fits64-of_bool}
use hlang.Base.Int.Division.{quot-IsQuotient}
use hlang.Run.{Run, ok, undefined, out_of_fuel, ◌>>=◌}
use hlang.Token.{SrcLoc, Punct, minus, plus, tilde, bang, star, slash, percent, pow}
use hlang.Ast.{Expr, int_lit, char_lit, unary, binary, Store}
use hlang.Parser.Constant.{Constant, defined, unary_value, binary_value, combine, eval_const}
use hlang.Parser.Constant.Exact.{
  ExactSign, pow_ℤ, Value, ZeroDivisor, Overflow, Explains, is_sign, is_basic, basic,
}

negated : (x : ℤ) → sub_ℕ (neg_part x) (pos_part x) ≡ pos 0 -ℤ x
unfolding ◌-ℤ◌
negated (pos n) = ground arith
negated (negsuc n) = ground arith

inverted : (x : ℤ) → not64 x ≡ pos 0 -ℤ x -ℤ pos 1
unfolding not64 ◌-ℤ◌
inverted (pos n) = ground arith
inverted (negsuc n) = ground arith

banged : (x : ℤ) → ExactSign bang x (of_bool (not (is_true x)))
banged (pos zero) = inl (refl, refl)
banged (pos (suc n)) = inr (λ e. cc e, ground arith)
banged (negsuc n) = inr (λ e. cc e, refl)

zero_divisor : (y : ℤ) → eq_ℤ y (pos 0) ≡ true → y ≡ pos 0
zero_divisor (pos n) h = ground arith
zero_divisor (negsuc n) h = ground arith

-- a checked result
checked-Explains :
    (e : Expr) (y : ℤ)
    → Value e y
    → (fits64 y ≡ false → Overflow e)
    → Explains e (defined (checked y) true)
unfolding checked
checked-Explains e y h k =
    if-elim (λ (o : Option ℤ). Explains e (defined o true)) (fits64 y) (some y) none (λ f. (h, f))
      (λ f. inl (k f))

flagged-Explains : (e : Expr) (o : Option ℤ) → ZeroDivisor e → Explains e (defined o false)
flagged-Explains e none h = inr h
flagged-Explains e (some v) h = h

-- what the loop comes to, from a power that is in range
abbrev Powered : ℤ → ℕ → Option ℤ → Type 0
Powered v m none = (i : ℕ) × (i ≤ m) × (fits64 (pow_ℤ v i) ≡ false)
Powered v m (some w) = (w ≡ pow_ℤ v m) × (fits64 w ≡ true)

power_loop-Powered :
    (n k m : ℕ) (v : ℤ)
    → m ≡ k + n
    → fits64 (pow_ℤ v k) ≡ true
    → Powered v m (power_loop n v (pow_ℤ v k))
unfolding power_loop mul64 checked
power_loop-Powered zero k m v e f = let same : k ≡ m = omega (arith, e) in (ap (pow_ℤ v) same, f)
power_loop-Powered (suc n) k m v e f =
    if-elim
      (λ (o : Option ℤ).
        Powered v m (let r : Option ℤ = elim o [ none ↦ none | some s ↦ power_loop n v s ] in r))
      (fits64 (pow_ℤ v (suc k))) (some (pow_ℤ v (suc k))) none
      (λ g. power_loop-Powered n (suc k) m v (omega (arith, e)) g)
      (λ g. (suc k, omega (arith, e), g))

one_fits : fits64 (pos 1) ≡ true
unfolding fits64
one_fits = refl

sign_carries :
    (p : Punct) (pre : Bool) (a : Expr) (l : SrcLoc) → Overflow a → Overflow (unary l p pre a)
sign_carries minus pre a l h = inl h
sign_carries p pre a l h = h

module _ (l : SrcLoc) (pre : Bool) (a : Expr) where
  sign-Explains :
      (p : Punct) (r : Run Constant)
      → is_sign p ≡ true
      → Explains a r
      → Explains (unary l p pre a) (r >>= unary_value p)
  unfolding unary_value neg64
  sign-Explains minus (ok (x, true)) q h =
      checked-Explains (unary l minus pre a) (sub_ℕ (neg_part x) (pos_part x)) (x, h.0, negated x)
        λ f. inr (x, h.0, rw (← negated x) f)
  sign-Explains plus (ok (x, true)) q h = ((x, h.0, refl), h.1)
  sign-Explains tilde (ok (x, true)) q h = ((x, h.0, inverted x), fits64-not64 x h.1)
  sign-Explains bang (ok (x, true)) q h = ((x, h.0, banged x), fits64-of_bool (not (is_true x)))
  sign-Explains minus (ok (x, false)) q h = flagged-Explains (unary l minus pre a) (neg64 x) h
  sign-Explains plus (ok (x, false)) q h = h
  sign-Explains tilde (ok (x, false)) q h = h
  sign-Explains bang (ok (x, false)) q h = h
  sign-Explains p undefined q (inl h) = inl (sign_carries p pre a l h)
  sign-Explains p undefined q (inr h) = inr h
  sign-Explains p out_of_fuel q h = absurd h
  sign-Explains p r q h = cc q

module _ (l : SrcLoc) (a b : Expr) where
  power-Explains :
      (x : ℤ) (n : ℕ)
      → Value a x
      → Value b (pos n)
      → (o : Option ℤ) → Powered x n o
      → Explains (binary l pow a b) (defined o true)
  power-Explains x n h k none c = inl (inr (inr (x, pos n, h, k, c)))
  power-Explains x n h k (some w) c = ((x, pos n, h, k, c.0), c.1)

  -- an operator on the values of both operands
  op-Explains :
      (p : Punct) (x y : ℤ)
      → is_basic p ≡ true
      → Value a x
      → Value b y
      → fits64 x ≡ true
      → Explains (binary l p a b) (binary_value p x y)
  unfolding binary_value add64 sub64 mul64 div64 rem64 power
  op-Explains plus x y q h k f =
      checked-Explains (binary l plus a b) (x +ℤ y) (x, y, h, k, refl)
        λ g. inr (inr (x, y, h, k, (x +ℤ y, refl, g)))
  op-Explains minus x y q h k f =
      checked-Explains (binary l minus a b) (x -ℤ y) (x, y, h, k, refl)
        λ g. inr (inr (x, y, h, k, (x -ℤ y, refl, g)))
  op-Explains star x y q h k f =
      checked-Explains (binary l star a b) (x *ℤ y) (x, y, h, k, refl)
        λ g. inr (inr (x, y, h, k, (x *ℤ y, refl, g)))
  op-Explains slash x y q h k f =
      if-elim (Explains (binary l slash a b)) (eq_ℤ y (pos 0)) _ _
        (λ z. inr (inr (refl, rw (← zero_divisor y z) k)))
        λ z.
          let d = quot-IsQuotient x y z in
          checked-Explains (binary l slash a b) (quot x y) (x, y, h, k, (remainder x y, d))
            λ g. inr (inr (x, y, h, k, (quot x y, (remainder x y, d), g)))
  op-Explains percent x y q h k f =
      if-elim (Explains (binary l percent a b)) (eq_ℤ y (pos 0)) _ _
        (λ z. inr (inr (refl, rw (← zero_divisor y z) k)))
        λ z.
          let d = quot-IsQuotient x y z in
          if-elim (λ (o : Option ℤ). Explains (binary l percent a b) (defined o true))
            (fits64 (quot x y)) _ _ (λ g. ((x, y, h, k, (quot x y, d)), fits64-remainder x y f))
            (λ g. inl (inr (inr (x, y, h, k, (quot x y, remainder x y, d, g)))))
  op-Explains pow x (pos n) q h k f =
      power-Explains x n h k (power_loop n x (pos 1))
        (power_loop-Powered n 0 n x (omega arith) one_fits)
  op-Explains pow x (negsuc n) q h k f =
      if-elim (λ (o : Option ℤ). Explains (binary l pow a b) (defined o true)) (ltb n (2 ^ 63 - 1))
        _ _ (λ g. ((x, negsuc n, h, k, refl), one_fits))
        (λ g. inl (inr (inr (x, negsuc n, h, k, ground (arith, g)))))
  op-Explains p x y q h k f = cc q

  join-Explains :
      (p : Punct) (r s : Run Constant)
      → is_basic p ≡ true
      → Explains a r
      → Explains b s
      → Explains (binary l p a b) (r >>= λ x. s >>= λ y. combine p x y)
  unfolding combine
  join-Explains p (ok (x, true)) (ok (y, true)) q h k = op-Explains p x y q h.0 k.0 h.1
  join-Explains p (ok (x, true)) (ok (y, false)) q h k = inr (inl k)
  join-Explains p (ok (x, false)) (ok (y, z)) q h k = inl h
  join-Explains p (ok (x, z)) undefined q h (inl k) = inl (inr (inl k))
  join-Explains p (ok (x, z)) undefined q h (inr k) = inr (inr (inl k))
  join-Explains p (ok (x, z)) out_of_fuel q h k = absurd k
  join-Explains p undefined s q (inl h) k = inl (inl h)
  join-Explains p undefined s q (inr h) k = inr (inl h)
  join-Explains p out_of_fuel s q h k = absurd h

module _ (float_int : Bytes → Option ℤ) (store : Store) where
  -- evalConstI64, on an expression over integers of 64 bits, signs, sums, differences, products,
  -- quotients, remainders and powers: what it finds to be a constant is the value of the expression over
  -- the integers, with division truncated towards zero and 1 for a power with a negative exponent, and
  -- is an int64_t; it refuses only where the value of a divisor is 0; and its arithmetic is undefined
  -- only where there is a zero divisor, or the result of an operator, the quotient that goes with a
  -- remainder or a power up to the one that is asked for is no int64_t, or an exponent is -(2 ^ 63) or
  -- less.
  pub eval_const-Explains : (e : Expr) → basic e ≡ true → Explains e (eval_const float_int store e)
  unfolding eval_const
  eval_const-Explains (int_lit l v) h = (refl, h)
  eval_const-Explains (char_lit l v n) h = (refl, h)
  eval_const-Explains (unary l p pre a) h =
      let (q, ha) = and_both (is_sign p) (basic a) h in
      sign-Explains l pre a p _ q (eval_const-Explains a ha)
  eval_const-Explains (binary l p a b) h =
      let (q, operands) = and_both (is_basic p) (basic a && basic b) h in
      let (ha, hb) = and_both (basic a) (basic b) operands in
      join-Explains l a b p _ _ q (eval_const-Explains a ha) (eval_const-Explains b hb)
  eval_const-Explains _ h = cc h
