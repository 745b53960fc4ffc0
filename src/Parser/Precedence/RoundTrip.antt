-- ===== src/Parser/Precedence/RoundTrip.antt =====
-- src/parser.cpp: `parseAssign` reads back an expression that is written with the parentheses that
-- precedence and associativity need.
use hlang.Base.{
  ℕ, zero, suc, ◌<◌, ◌≡◌, refl, Bool, true, false, not, ◌&&◌, ◌||◌, List, [], ◌∷◌, arith, length,
}
use hlang.Run.{Run, ok}
use hlang.Token.{
  Token, SrcLoc, is, l_paren, r_paren, l_bracket, dot, arrow, plus_plus, minus_minus, question,
}
use hlang.Ast.{Expr}
use hlang.Parser.{Parser, M, tok, at, take, expect, ◌>>=◌, looks_like_cast}
use hlang.Parser.Levels.{one_of, parse_unary, parse_lor}
use hlang.Parser.Expression.{
  resume, suffix, postfix_rounds, parse_postfix, parse_primary, parse_primary_at, parse_symbol,
  assignments, assign_tail, parse_assign,
}
use hlang.Parser.Precedence.{Tree, number, sign, literal, write, built, nesting, quiet, quiet_at}
use hlang.Parser.Precedence.Climbing.{front}
use hlang.Parser.Precedence.Reading.{tree-Reads}

-- one member after another
bind-ok :
    {A B : Type 0} (m : M A) (k : A → M B) (a : A) (o q : Parser) (r : Run (B × Parser))
    → m o ≡ ok (a, q)
    → k a q ≡ r
    → (m >>= k) o ≡ r
unfolding ◌>>=◌
bind-ok m k a o q r h x = rw h x

module _ (asg : M Expr) (e : Expr) (p : Parser) where
  suffix-end : suffix asg e (front p []) ≡ ok (hlang.Parser.Expression.done e, front p [])
  unfolding suffix is
  suffix-end = refl

  suffix-quiet :
      (t : Token) (ts : List Token)
      → quiet 0 t ≡ true
      → suffix asg e (front p (t ∷ ts)) ≡ ok (hlang.Parser.Expression.done e, front p (t ∷ ts))
  unfolding quiet suffix
  suffix-quiet t ts h =
      let parens : is l_paren t ≡ false = ground (arith, h) in
      let brackets : is l_bracket t ≡ false = ground (arith, h) in
      let dots : is dot t ≡ false = ground (arith, h) in
      let arrows : is arrow t ≡ false = ground (arith, h) in
      let ups : is plus_plus t ≡ false = ground (arith, h) in
      let downs : is minus_minus t ≡ false = ground (arith, h) in
      rw (parens, brackets, dots, arrows, ups, downs) refl

  -- no suffix follows
  postfix_rounds-stops :
      (n : ℕ) (ts : List Token)
      → quiet_at 0 ts ≡ true
      → postfix_rounds n asg e (front p ts) ≡ ok (e, front p ts)
  unfolding postfix_rounds quiet_at
  postfix_rounds-stops zero ts h = refl
  postfix_rounds-stops (suc n) [] h =
      bind-ok (suffix asg e) (resume λ e'. postfix_rounds n asg e') _ (front p []) _ _ suffix-end
        refl
  postfix_rounds-stops (suc n) (t ∷ ts) h =
      bind-ok (suffix asg e) (resume λ e'. postfix_rounds n asg e') _ (front p (t ∷ ts)) _ _
        (suffix-quiet t ts h) refl

module _ (l : SrcLoc) (p : Parser) (f : ℕ) where
  -- what the levels are built on
  abbrev operand : M Expr
  operand = parse_unary (parse_postfix (parse_primary (suc f) (parse_assign f)) (parse_assign f))

  operand-number :
      (v : ℕ) (ts : List Token)
      → quiet_at 0 ts ≡ true
      → operand (front p (literal l v ∷ ts)) ≡ ok (built l (number v), front p ts)
  unfolding built parse_unary parse_postfix parse_primary parse_primary_at
  operand-number v ts h =
      postfix_rounds-stops (parse_assign f) (built l (number v)) p (length ts) ts h

  operand-group :
      (e : Expr) (us ts : List Token)
      → parse_assign f (front p us) ≡ ok (e, front p (sign l r_paren ∷ ts))
      → quiet_at 0 ts ≡ true
      → operand (front p (sign l l_paren ∷ us)) ≡ ok (e, front p ts)
  unfolding parse_unary parse_postfix parse_primary parse_symbol
  operand-group e us ts r h = rw r (postfix_rounds-stops (parse_assign f) e p (length ts) ts h)

-- The tokens go on with no operator, no assignment and no question mark, and begin no suffix.
abbrev pub closed : List Token → Bool
closed [] = true
closed (t ∷ ts) = quiet 11 t && not (one_of assignments t || is question t)

closed-parts : (a b c : Bool) → a && not (b || c) ≡ true → (a ≡ true) × (b ≡ false) × (c ≡ false)
closed-parts true false false h = (refl, refl, refl)
closed-parts _ _ _ h = absurd (ground (arith, h))

closed-quiet_at : (ts : List Token) → closed ts ≡ true → quiet_at 11 ts ≡ true
unfolding quiet_at
closed-quiet_at [] h = refl
closed-quiet_at (t ∷ ts) h = (closed-parts (quiet 11 t) (one_of assignments t) (is question t) h).0

assign_tail-stops :
    (asg : M Expr) (e : Expr) (q : Parser)
    → one_of assignments (tok 0 q) ≡ false
    → is question (tok 0 q) ≡ false
    → assign_tail asg e q ≡ ok (e, q)
unfolding assign_tail
assign_tail-stops asg e q a h = rw (a, h) refl

one_of-end : (p : Parser) → one_of assignments (tok 0 (front p [])) ≡ false
unfolding tok is
one_of-end p = refl

question-end : (p : Parser) → is question (tok 0 (front p [])) ≡ false
unfolding tok is
question-end p = refl

assign_tail-closed :
    (asg : M Expr) (e : Expr) (p : Parser) (ts : List Token)
    → closed ts ≡ true
    → assign_tail asg e (front p ts) ≡ ok (e, front p ts)
unfolding tok
assign_tail-closed asg e p [] h =
    assign_tail-stops asg e (front p []) (one_of-end p) (question-end p)
assign_tail-closed asg e p (t ∷ ts) h =
    let (q, a, c) = closed-parts (quiet 11 t) (one_of assignments t) (is question t) h in
    assign_tail-stops asg e (front p (t ∷ ts)) a c

closed-r_paren : (l : SrcLoc) (ts : List Token) → closed (sign l r_paren ∷ ts) ≡ true
unfolding is quiet
closed-r_paren l ts = refl

module _ (l : SrcLoc) (p : Parser) where
  -- parseAssign, with more fuel than the parentheses are deep, reads back an expression over the
  -- binary operators, written with the parentheses that precedence and left associativity need
  -- and no others, and leaves the tokens behind it and the rest of the parser: where these go on
  -- with no operator, assignment, question mark or suffix.
  pub parse_assign-write :
      (f : ℕ) (t : Tree) (ts : List Token)
      → nesting 11 t < f
      → closed ts ≡ true
      → parse_assign f (front p (write l 11 t ts)) ≡ ok (built l t, front p ts)
  unfolding parse_assign
  parse_assign-write zero t ts lt h = absurd (omega (arith, lt))
  parse_assign-write (suc f) t ts lt h =
      let of_group =
        λ (u : Tree) (us : List Token) (le : nesting 11 u < f) (q : quiet_at 0 us ≡ true).
          operand-group l p f (built l u) _ us
            (parse_assign-write f u (sign l r_paren ∷ us) le (closed-r_paren l us)) q in
      let read =
        tree-Reads l p (operand l p f) f (operand-number l p f) of_group t 11 ts (omega arith)
          (omega (arith, lt)) (closed-quiet_at ts h) in
      bind-ok (parse_lor (operand l p f)) (assign_tail (parse_assign f)) (built l t)
        (front p (write l 11 t ts)) (front p ts) _ read
        (assign_tail-closed (parse_assign f) (built l t) p ts h)
