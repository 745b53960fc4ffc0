-- ===== src/Lexer/CondEval/Meaning.antt =====
-- `CondEval` on the fully parenthesised spelling of a tree.
use hlang.Base.{
  ℕ, zero, suc, ◌≤◌, ◌<◌, ◌≡◌, refl, ap, sym, ◌∙◌, Bool, true, false, ◌||◌, List, [], ◌∷◌, ◌++◌,
  append_assoc, append-nil, Bytes, Option, none, some, arith,
}
use hlang.Base.Dict.{Dict}
use hlang.Base.Int.{ℤ, neg64}
use hlang.Run.{ok, undefined, out_of_fuel, ◌>>=◌}
use hlang.Token.{Token, SrcLoc, blank, is, l_paren, r_paren, int_lit}
use hlang.Lexer.CondEval.{
  Eval, give, primary, unary, close_paren, tier, tier_loop, stacked, expr, run, defined_or,
}
use hlang.Lexer.CondOps.{Apply, tiers}
use hlang.Lexer.CondEval.Tiers.{Answer, before, apply}
use hlang.Lexer.CondEval.Parenthesised.{
  Op, Tree, lit, sign, join, Sign, negate, lnot, inverse, op_punct, op_meaning, sign_punct,
  sign_meaning, meaning, symbol, spell, depth,
}
use hlang.Lexer.CondEval.Places.{stacked-operator}

or_false : (e : Bool) → (e || false) ≡ e
or_false true = refl
or_false false = refl

-- the closing parenthesis behind an answer
close-before :
    (l : SrcLoc) (a : Answer) (r : List Token) (e : Bool)
    → ((a >>= before (symbol l r_paren ∷ r) e) >>= close_paren) ≡ (a >>= before r e)
unfolding is
close-before l (ok (v, b)) r e = refl
close-before l undefined r e = refl
close-before l out_of_fuel r e = refl

-- at the end of the tokens all tiers hand an answer on
tier-end :
    (ops : Token → Option Apply) (sub : Eval) (ts : List Token) (e : Bool) (a : Answer)
    → sub ts e ≡ (a >>= before [] e)
    → tier ops sub ts e ≡ (a >>= before [] e)
unfolding tier tier_loop
tier-end ops sub ts e (ok (v, b)) h = rw h
tier-end ops sub ts e undefined h = rw h
tier-end ops sub ts e out_of_fuel h = rw h

stacked-end :
    (list : List (Token → Option Apply)) (sub : Eval) (ts : List Token) (e : Bool) (a : Answer)
    → sub ts e ≡ (a >>= before [] e)
    → stacked list sub ts e ≡ (a >>= before [] e)
unfolding stacked
stacked-end [] sub ts e a h = h
stacked-end (ops ∷ more) sub ts e a h =
    stacked-end more (tier ops sub) ts e a (tier-end ops sub ts e a h)

-- a negation, which may overflow
negated :
    (o : Option ℤ) (r : List Token) (e b : Bool)
    → defined_or o r (e || b)
      ≡ ((let m : Answer = elim o [ none ↦ undefined | some w ↦ ok (w, b) ] in m) >>= before r e)
negated none r e b = refl
negated (some w) r e b = refl

-- a sign before an operand
unary-sign :
    (prim : Eval) (l : SrcLoc) (s : Sign) (ts r : List Token) (e : Bool) (a : Answer)
    → unary prim ts e ≡ (a >>= before r e)
    → unary prim (symbol l (sign_punct s) ∷ ts) e ≡ ((a >>= sign_meaning s) >>= before r e)
unfolding unary is
unary-sign prim l negate ts r e (ok (v, b)) h = rw (h, unary) (negated (neg64 v) r e b)
unary-sign prim l lnot ts r e (ok (v, b)) h = rw (h, unary)
unary-sign prim l inverse ts r e (ok (v, b)) h = rw (h, unary)
unary-sign prim l negate ts r e undefined h = rw (h, unary)
unary-sign prim l lnot ts r e undefined h = rw (h, unary)
unary-sign prim l inverse ts r e undefined h = rw (h, unary)
unary-sign prim l negate ts r e out_of_fuel h = rw (h, unary)
unary-sign prim l lnot ts r e out_of_fuel h = rw (h, unary)
unary-sign prim l inverse ts r e out_of_fuel h = rw (h, unary)

module _ (float_int : Bytes → Option ℤ) (macros : Dict (List Token)) (l : SrcLoc) where
  -- Operands are read as `unary` reads them, with `expr` at some fuel behind a parenthesis.
  abbrev operand : ℕ → Eval
  operand f = unary (primary float_int macros (expr float_int macros f))

  operand-paren :
      (f : ℕ) (ts : List Token) (e : Bool)
      → operand f (symbol l l_paren ∷ ts) e ≡ (expr float_int macros f ts e >>= close_paren)
  unfolding unary primary is
  operand-paren f ts e = refl

  operand-lit :
      (f : ℕ) (v : ℤ) (r : List Token) (e : Bool)
      → operand f (record (blank l) { kind = int_lit; ival = v } ∷ r) e ≡ before r e (v, false)
  unfolding unary primary is
  operand-lit f v r e = ap (give v r) (sym (or_false e))

  expr-suc :
      (f : ℕ) (ts : List Token) (e : Bool)
      → expr float_int macros (suc f) ts e ≡ stacked tiers (operand f) ts e
  unfolding expr
  expr-suc f ts e = refl

  -- the tokens of a joined pair before others
  regroup :
      (o : Op) (xs ys r : List Token)
      → (xs ++ symbol l (op_punct o) ∷ (ys ++ symbol l r_paren ∷ [])) ++ r
        ≡ xs ++ symbol l (op_punct o) ∷ (ys ++ symbol l r_paren ∷ r)
  regroup o xs ys r = simp append_assoc

  -- `expr` at a pair in parentheses, behind the opening one
  expr-pair :
      (o : Op) (f : ℕ) (xs ys r : List Token) (e : Bool) (a b : Answer)
      → ((us : List Token) (e' : Bool) → operand f (xs ++ us) e' ≡ (a >>= before us e'))
      → ((us : List Token) (e' : Bool) → operand f (ys ++ us) e' ≡ (b >>= before us e'))
      → expr float_int macros (suc f) (xs ++ symbol l (op_punct o) ∷ (ys ++ symbol l r_paren ∷ r)) e
        ≡ (apply (op_meaning o) a b >>= before (symbol l r_paren ∷ r) e)
  expr-pair o f xs ys r e a b ha hb =
      let ts = xs ++ symbol l (op_punct o) ∷ (ys ++ symbol l r_paren ∷ r) in
      expr-suc f ts e
      ∙ stacked-operator l o (operand f) ts (ys ++ symbol l r_paren ∷ r) r e a b
          (ha (symbol l (op_punct o) ∷ (ys ++ symbol l r_paren ∷ r)) e) (hb (symbol l r_paren ∷ r))

  operand-spell :
      (t : Tree) (f : ℕ) (r : List Token) (e : Bool)
      → depth t ≤ f
      → operand f (spell l t ++ r) e ≡ (meaning t >>= before r e)
  unfolding spell meaning
  operand-spell (lit v) f r e h = operand-lit f v r e
  operand-spell (sign s t) f r e h =
      unary-sign (primary float_int macros (expr float_int macros f)) l s (spell l t ++ r) r e
        (meaning t) (operand-spell t f r e h)
  operand-spell (join o a b) zero r e h = absurd (omega arith)
  operand-spell (join o a b) (suc f) r e h =
      ap (λ ts. operand (suc f) (symbol l l_paren ∷ ts) e) (regroup o (spell l a) (spell l b) r)
      ∙ operand-paren (suc f) _ e
      ∙ ap (λ m. m >>= close_paren)
          (expr-pair o f (spell l a) (spell l b) r e (meaning a) (meaning b)
            (λ us e'. operand-spell a f us e' (omega arith))
            (λ us e'. operand-spell b f us e' (omega arith)))
      ∙ close-before l (apply (op_meaning o) (meaning a) (meaning b)) r e

  run-answer :
      (f : ℕ) (ts : List Token) (a : Answer)
      → expr float_int macros f ts false ≡ (a >>= before [] false)
      → run float_int macros f ts ≡ a
  unfolding run
  run-answer f ts (ok (v, b)) h = rw h (ap (λ x. ok (v, x)) (or_false b))
  run-answer f ts undefined h = rw h
  run-answer f ts out_of_fuel h = rw h

  -- With more fuel than its parentheses are deep, the fully parenthesised spelling of a tree is
  -- evaluated to the tree's meaning, and it is reported as bad exactly where the meaning has an error.
  pub run-spell : (t : Tree) (f : ℕ) → depth t < f → run float_int macros f (spell l t) ≡ meaning t
  run-spell t zero h = absurd (omega arith)
  run-spell t (suc f) h =
      let whole =
        ap (λ ts. operand f ts false) (sym (append-nil (spell l t)))
        ∙ operand-spell t f [] false (omega arith) in
      run-answer (suc f) (spell l t) (meaning t) (
        expr-suc f (spell l t) false
        ∙ stacked-end tiers (operand f) (spell l t) false (meaning t) whole)
