-- ===== src/Parser/Constant/Agreement.antt =====
-- src/parser.cpp, src/lexer.cpp: `evalConstI64` against the preprocessor's `CondEval`, by way of the
-- trees that the latter reads.
pub mod Shifts
use hlang.Base.{
  and_both, ℕ, ◌<◌, ◌≡◌, ◌↔◌, refl, ap, Bool, true, false, ◌||◌, ◌&&◌, Bytes, Option, none, some,
  List, arith, if◌then◌else◌, Bool-cases, inl, inr,
}
use mathlib.Core.Path.{subst}
use hlang.Base.Int.{ℤ, pos, eq_ℤ, neg64, div64, rem64, shl64, signed64, pattern64}
use hlang.Run.{Run, ok, undefined, out_of_fuel, ◌>>=◌}
use hlang.Token.{SrcLoc, Token}
use hlang.Ast.{Expr, Store, int_lit, unary, binary}
use hlang.Lexer.CondOps.{pure, dividing}
use hlang.Lexer.CondEval.Tiers.{Answer, apply}
use hlang.Base.Dict.{Dict}
use hlang.Lexer.CondEval.{run}
use hlang.Lexer.CondEval.Meaning.{run-spell}
use hlang.Lexer.CondEval.Parenthesised.{
  spell, depth, Op, power_of, times, over, rest_of, band, bxor, bor, add, sub, Sign, Tree, lit,
  sign, join, negate, lnot, inverse, op_punct, op_meaning, sign_punct, sign_meaning, meaning,
}
use hlang.Parser.Constant.{
  low_six, Constant, eval_const, unary_value, binary_value, combine, refuse, defined,
}

-- The operators that mean the same to both: all arithmetic but the shifts.
abbrev pub is_shared : Op → Bool
is_shared times = true
is_shared over = true
is_shared rest_of = true
is_shared power_of = true
is_shared band = true
is_shared bxor = true
is_shared bor = true
is_shared add = true
is_shared sub = true
is_shared _ = false

abbrev pub shared : Tree → Bool
shared (lit v) = true
shared (sign s t) = shared t
shared (join o a b) = is_shared o && (shared a && shared b)

-- A tree as the parser's expression.
unfoldable pub embed : SrcLoc → Tree → Expr
embed l (lit v) = int_lit l v
embed l (sign s t) = unary l (sign_punct s) true (embed l t)
embed l (join o a b) = binary l (op_punct o) (embed l a) (embed l b)

-- The outcome is no constant: the flag is false, or C++ leaves the arithmetic undefined. (A run of
-- `evalConstI64` takes no fuel.)
abbrev pub Fails : Run Constant → Type 0
Fails (ok (v, true)) = ⊥
Fails (ok (v, false)) = Unit
Fails undefined = Unit
Fails out_of_fuel = Unit

-- The same constant on both sides, or none on either.
abbrev pub Agrees : Answer → Run Constant → Type 0
Agrees (ok (v, false)) r = r ≡ ok (v, true)
Agrees (ok (v, true)) r = Fails r
Agrees undefined r = Fails r
Agrees out_of_fuel r = Fails r

Fails-defined : (o : Option ℤ) → Fails (defined o false)
Fails-defined none = tt
Fails-defined (some v) = tt

-- a sign keeps a failure
Fails-sign : (s : Sign) (r : Run Constant) → Fails r → Fails (r >>= unary_value (sign_punct s))
unfolding unary_value
Fails-sign negate (ok (v, false)) h = Fails-defined (neg64 v)
Fails-sign lnot (ok (v, false)) h = tt
Fails-sign inverse (ok (v, false)) h = tt
Fails-sign s (ok (v, true)) h = absurd h
Fails-sign s undefined h = tt
Fails-sign s out_of_fuel h = h

negate-Agrees :
    (o : Option ℤ)
    → Agrees
        (let m : Answer = elim o [ none ↦ undefined | some w ↦ ok (w, false) ] in m)
        (defined o true)
negate-Agrees none = tt
negate-Agrees (some w) = refl

-- an answer with an error, or none, agrees with a failure
flagged-negate :
    (o : Option ℤ) (r : Run Constant)
    → Fails r
    → Agrees (let m : Answer = elim o [ none ↦ undefined | some w ↦ ok (w, true) ] in m) r
flagged-negate none r h = h
flagged-negate (some w) r h = h

flagged-Agrees : (m : Answer) (r : Run Constant) → Fails r → Agrees (m >>= λ z. ok (z.0, true)) r
flagged-Agrees (ok z) r h = h
flagged-Agrees undefined r h = h
flagged-Agrees out_of_fuel r h = h

pub sign-Agrees :
    (s : Sign) (a : Answer) (r : Run Constant)
    → Agrees a r
    → Agrees (a >>= sign_meaning s) (r >>= unary_value (sign_punct s))
unfolding unary_value
sign-Agrees negate (ok (v, false)) r h = rw h (negate-Agrees (neg64 v))
sign-Agrees lnot (ok (v, false)) r h = rw h
sign-Agrees inverse (ok (v, false)) r h = rw h
sign-Agrees negate (ok (v, true)) r h = flagged-negate (neg64 v) _ (Fails-sign negate r h)
sign-Agrees lnot (ok (v, true)) r h = Fails-sign lnot r h
sign-Agrees inverse (ok (v, true)) r h = Fails-sign inverse r h
sign-Agrees s undefined r h = Fails-sign s r h
sign-Agrees s out_of_fuel r h = Fails-sign s r h

-- one operator on two constants
pure-Agrees : (o : Option ℤ) → Agrees (pure o >>= λ z. ok (z.0, false || z.1)) (defined o true)
pure-Agrees none = tt
pure-Agrees (some v) = refl

dividing-Agrees :
    (f : ℤ → ℤ → Option ℤ) (v w : ℤ)
    → Agrees
        (dividing f v w >>= λ z. ok (z.0, false || z.1))
        (if eq_ℤ w (pos 0) then refuse else defined (f v w) true)
dividing-Agrees f v w = elim (Bool-cases (eq_ℤ w (pos 0))) [
  | inl e ↦ rw e tt
  | inr e ↦ rw e (pure-Agrees (f v w))
]

pub op-Agrees :
    (o : Op) (v w : ℤ)
    → is_shared o ≡ true
    → Agrees (op_meaning o v w >>= λ z. ok (z.0, false || z.1)) (binary_value (op_punct o) v w)
unfolding binary_value
op-Agrees times v w h = pure-Agrees _
op-Agrees over v w h = dividing-Agrees div64 v w
op-Agrees rest_of v w h = dividing-Agrees rem64 v w
op-Agrees power_of v w h = pure-Agrees _
op-Agrees band v w h = refl
op-Agrees bxor v w h = refl
op-Agrees bor v w h = refl
op-Agrees add v w h = pure-Agrees _
op-Agrees sub v w h = pure-Agrees _
op-Agrees _ v w h = cc

-- the parser's outcome for two operands
abbrev joined : Op → Run Constant → Run Constant → Run Constant
joined o r s = r >>= λ x. s >>= λ y. combine (op_punct o) x y

joined-left : (o : Op) (r s : Run Constant) → Fails r → Fails (joined o r s)
unfolding combine
joined-left o (ok (v, true)) s h = absurd h
joined-left o (ok (v, false)) (ok (w, y)) h = tt
joined-left o (ok (v, false)) undefined h = tt
joined-left o (ok (v, false)) out_of_fuel h = tt
joined-left o undefined s h = tt
joined-left o out_of_fuel s h = tt

joined-right : (o : Op) (r s : Run Constant) → Fails s → Fails (joined o r s)
unfolding combine
joined-right o (ok (v, true)) (ok (w, false)) h = tt
joined-right o (ok (v, false)) (ok (w, false)) h = tt
joined-right o (ok (v, x)) (ok (w, true)) h = absurd h
joined-right o (ok (v, x)) undefined h = tt
joined-right o (ok (v, x)) out_of_fuel h = tt
joined-right o undefined s h = tt
joined-right o out_of_fuel s h = tt

join-Agrees :
    (o : Op) (a b : Answer) (r s : Run Constant)
    → is_shared o ≡ true
    → Agrees a r
    → Agrees b s
    → Agrees (apply (op_meaning o) a b) (joined o r s)
unfolding combine
join-Agrees o (ok (v, false)) (ok (w, false)) r s q h k = rw (h, k) (op-Agrees o v w q)
join-Agrees o (ok (v, false)) (ok (w, true)) r s q h k =
    flagged-Agrees (op_meaning o v w) _ (joined-right o r s k)
join-Agrees o (ok (v, true)) (ok (w, y)) r s q h k =
    flagged-Agrees (op_meaning o v w) _ (joined-left o r s h)
join-Agrees o (ok (v, false)) undefined r s q h k = joined-right o r s k
join-Agrees o (ok (v, false)) out_of_fuel r s q h k = joined-right o r s k
join-Agrees o (ok (v, true)) undefined r s q h k = joined-left o r s h
join-Agrees o (ok (v, true)) out_of_fuel r s q h k = joined-left o r s h
join-Agrees o undefined b r s q h k = joined-left o r s h
join-Agrees o out_of_fuel b r s q h k = joined-left o r s h

module _ (float_int : Bytes → Option ℤ) (store : Store) (l : SrcLoc) where
  eval_const-Agrees :
      (t : Tree) → shared t ≡ true → Agrees (meaning t) (eval_const float_int store (embed l t))
  unfolding meaning embed eval_const
  eval_const-Agrees (lit v) h = refl
  eval_const-Agrees (sign s t) h = sign-Agrees s (meaning t) _ (eval_const-Agrees t h)
  eval_const-Agrees (join o a b) h =
      let (shared_op, operands) = and_both (is_shared o) _ h in
      let (ha, hb) = and_both (shared a) (shared b) operands in
      join-Agrees o (meaning a) (meaning b) _ _ shared_op (eval_const-Agrees a ha)
        (eval_const-Agrees b hb)

  agreement :
      (a : Answer) (r : Run Constant) (v : ℤ)
      → Agrees a r
      → (a ≡ ok (v, false)) ↔ (r ≡ ok (v, true))
  agreement (ok (w, false)) r v h = (λ p. cc (h, p), λ p. cc (h, p))
  agreement (ok (w, true)) r v h = (λ p. cc p, λ p. absurd (subst Fails p h))
  agreement undefined r v h = (λ p. cc p, λ p. absurd (subst Fails p h))
  agreement out_of_fuel r v h = (λ p. cc p, λ p. absurd (subst Fails p h))

  -- Over all operators but the shifts and the tests, the parser finds an expression to be a constant
  -- of some value exactly where `CondEval`, on its fully parenthesised spelling and with more fuel than
  -- its parentheses are deep, evaluates it to that value with no error: on overflow, division by zero
  -- and what is built on them neither gives a value.
  pub eval_const-run :
      (macros : Dict (List Token)) (t : Tree) (f : ℕ) (v : ℤ)
      → shared t ≡ true
      → depth t < f
      → (run float_int macros f (spell l t) ≡ ok (v, false))
        ↔ (eval_const float_int store (embed l t) ≡ ok (v, true))
  eval_const-run macros t f v h d =
      rw (run-spell float_int macros l t f d) (agreement (meaning t) _ v (eval_const-Agrees t h))
