-- ===== src/Parser/Constant/Agreement/Shifts.antt =====
-- src/parser.cpp, src/lexer.cpp: `evalConstI64` against `CondEval` where there are shifts, whose
-- counts only the parser masks to six bits.
use hlang.Base.{
  and_both, ℕ, ◌*◌, ◌%◌, ◌^◌, ◌<◌, ◌≤◌, zero, suc, ltb→lt, ◌≡◌, refl, sym, ap, ◌∙◌, Bool, true,
  false, ◌&&◌, ◌||◌, List, Bytes, Option, none, some, arith, Bool-cases, inl, inr, ltb,
}
use mathlib.Core.Path.{subst}
use hlang.Base.Dict.{Dict}
use hlang.Base.Int.{ℤ, pos, negsuc, neg64, shl64, shr64, signed64, pattern64}
use hlang.Run.{Run, ok, undefined, out_of_fuel, ◌>>=◌}
use hlang.Token.{SrcLoc, Token, shl, shr}
use hlang.Ast.{Store}
use hlang.Lexer.CondOps.{pure}
use hlang.Lexer.CondEval.{run}
use hlang.Lexer.CondEval.Meaning.{run-spell}
use hlang.Lexer.CondEval.Tiers.{Answer, apply}
use hlang.Lexer.CondEval.Parenthesised.{
  Op, left, right, Sign, Tree, lit, sign, join, negate, lnot, inverse, op_punct, op_meaning,
  sign_punct, sign_meaning, meaning, spell, depth,
}
use hlang.Parser.Constant.{Constant, low_six, eval_const, unary_value, binary_value, combine}
use hlang.Parser.Constant.Agreement.{is_shared, embed, Agrees, op-Agrees, sign-Agrees}

-- all arithmetic, with the shifts
abbrev is_arithmetic : Op → Bool
is_arithmetic left = true
is_arithmetic right = true
is_arithmetic o = is_shared o

abbrev pub arithmetic : Tree → Bool
arithmetic (lit v) = true
arithmetic (sign s t) = arithmetic t
arithmetic (join o a b) = is_arithmetic o && (arithmetic a && arithmetic b)

-- A value that the preprocessor gives with no error is the parser's constant.
abbrev Gives : Answer → Run Constant → Type 0
Gives (ok (v, false)) r = r ≡ ok (v, true)
Gives _ r = Unit {0}

Gives-Agrees : (a : Answer) (r : Run Constant) → Agrees a r → Gives a r
Gives-Agrees (ok (v, false)) r h = h
Gives-Agrees (ok (v, true)) r h = tt
Gives-Agrees undefined r h = tt
Gives-Agrees out_of_fuel r h = tt

low_six-pos : (b : ℕ) → b < 64 → low_six (pos b) ≡ b
unfolding pattern64
low_six-pos b h = omega arith

-- with an error on the left, the answer has one
Gives-flagged : (m : Answer) (r : Run Constant) → Gives (m >>= λ z. ok (z.0, true)) r
Gives-flagged (ok z) r = tt
Gives-flagged undefined r = tt
Gives-flagged out_of_fuel r = tt

Gives-sign :
    (s : Sign) (a : Answer) (r : Run Constant)
    → Gives a r
    → Gives (a >>= sign_meaning s) (r >>= unary_value (sign_punct s))
Gives-sign s (ok (v, false)) r h = Gives-Agrees _ _ (sign-Agrees s (ok (v, false)) r h)
Gives-sign negate (ok (v, true)) r h = by_result (neg64 v)
  where
    by_result :
        (o : Option ℤ)
        → Gives
            (let m : Answer = elim o [ none ↦ undefined | some w ↦ ok (w, true) ] in m)
            (r >>= unary_value (sign_punct negate))
    by_result none = tt
    by_result (some w) = tt
Gives-sign lnot (ok (v, true)) r h = tt
Gives-sign inverse (ok (v, true)) r h = tt
Gives-sign s undefined r h = tt
Gives-sign s out_of_fuel r h = tt

-- a shift on the preprocessor's side, where it is defined, is the masked one
abbrev one_value : Option ℤ → Answer
one_value o = pure o >>= λ z. ok (z.0, false || z.1)

two_positive : (b : ℕ) → 0 < 2 ^ b
two_positive zero = omega arith
two_positive (suc b) = omega (arith, two_positive b)

no_less : (a p : ℕ) → 0 < p → a ≤ a * p
no_less a p h = grind arith

-- the unsigned shift of a natural number that keeps within 64 bits
unmasked :
    (a b : ℕ)
    → b < 64
    → a * 2 ^ b < 2 ^ 64
    → (pattern64 (pos a) * 2 ^ low_six (pos b)) % 2 ^ 64 ≡ a * 2 ^ b
unmasked a b h lt =
    let small : a % 2 ^ 64 ≡ a = omega (arith, no_less a (2 ^ b) (two_positive b)) in
    let whole : (a * 2 ^ b) % 2 ^ 64 ≡ a * 2 ^ b = omega arith in
    rw (low_six-pos b h) (unfold pattern64 in rw small whole)

shl-Gives : (v w : ℤ) → Gives (one_value (shl64 v w)) (binary_value shl v w)
unfolding shl64 binary_value
shl-Gives (pos a) (pos b) = elim (Bool-cases (ltb b 64 && ltb (a * 2 ^ b) (2 ^ 64))) [
  | inl e ↦
      let (few, fits) = and_both (ltb b 64) (ltb (a * 2 ^ b) (2 ^ 64)) e in
      rw e (
        ap (λ k. ok (signed64 k, true))
          (unmasked a b (ltb→lt b 64 few) (ltb→lt (a * 2 ^ b) (2 ^ 64) fits)))
  | inr e ↦ rw e tt
]
shl-Gives (pos a) (negsuc b) = tt
shl-Gives (negsuc a) w = tt

shr-Gives : (v w : ℤ) → Gives (one_value (shr64 v w)) (binary_value shr v w)
unfolding shr64 binary_value
shr-Gives v (pos b) = elim (Bool-cases (ltb b 64)) [
  | inl e ↦ rw (e, low_six-pos b (ground (arith, e))) (rw e refl)
  | inr e ↦ rw e tt
]
shr-Gives v (negsuc b) = tt

op-Gives :
    (o : Op) (v w : ℤ)
    → is_arithmetic o ≡ true
    → Gives (op_meaning o v w >>= λ z. ok (z.0, false || z.1)) (binary_value (op_punct o) v w)
op-Gives left v w h = shl-Gives v w
op-Gives right v w h = shr-Gives v w
op-Gives o v w h =
    Gives-Agrees (op_meaning o v w >>= λ z. ok (z.0, false || z.1)) (binary_value (op_punct o) v w)
      (op-Agrees o v w h)

join-Gives :
    (o : Op) (a b : Answer) (r s : Run Constant)
    → is_arithmetic o ≡ true
    → Gives a r
    → Gives b s
    → Gives (apply (op_meaning o) a b) (r >>= λ x. s >>= λ y. combine (op_punct o) x y)
unfolding combine
join-Gives o (ok (v, false)) (ok (w, false)) r s q h k = rw (h, k) (op-Gives o v w q)
join-Gives o (ok (v, false)) (ok (w, true)) r s q h k = Gives-flagged (op_meaning o v w) _
join-Gives o (ok (v, true)) (ok (w, y)) r s q h k = Gives-flagged (op_meaning o v w) _
join-Gives o (ok (v, false)) undefined r s q h k = tt
join-Gives o (ok (v, false)) out_of_fuel r s q h k = tt
join-Gives o (ok (v, true)) undefined r s q h k = tt
join-Gives o (ok (v, true)) out_of_fuel r s q h k = tt
join-Gives o undefined b r s q h k = tt
join-Gives o out_of_fuel b r s q h k = tt

module _ (float_int : Bytes → Option ℤ) (store : Store) (l : SrcLoc) where
  meaning-Gives :
      (t : Tree) → arithmetic t ≡ true → Gives (meaning t) (eval_const float_int store (embed l t))
  unfolding meaning embed eval_const
  meaning-Gives (lit v) h = refl
  meaning-Gives (sign s t) h = Gives-sign s (meaning t) _ (meaning-Gives t h)
  meaning-Gives (join o a b) h =
      join-Gives o (meaning a) (meaning b) _ _ (ground (arith, h))
        (meaning-Gives a (ground (arith, h))) (meaning-Gives b (ground (arith, h)))

  -- Over the arithmetic operators with the shifts: what `CondEval`, on the fully parenthesised spelling
  -- of an expression and with more fuel than its parentheses are deep, evaluates with no error and no
  -- undefined behaviour, the parser finds to be a constant of the same value, although it shifts
  -- unsigned numbers, modulo 2 ^ 64, by the low six bits of a count.
  pub run-eval_const :
      (macros : Dict (List Token)) (t : Tree) (f : ℕ) (v : ℤ)
      → arithmetic t ≡ true
      → depth t < f
      → run float_int macros f (spell l t) ≡ ok (v, false)
      → eval_const float_int store (embed l t) ≡ ok (v, true)
  run-eval_const macros t f v h d e =
      subst (λ a. Gives a (eval_const float_int store (embed l t)))
        (sym (run-spell float_int macros l t f d) ∙ e) (meaning-Gives t h)
