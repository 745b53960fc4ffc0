-- ===== src/Lexer/CondEval/Parenthesised.antt =====
-- Expressions as trees, and their fully parenthesised spelling.
use hlang.Base.{ℕ, suc, Bool, false, not, List, [], ◌∷◌, ◌++◌, none, some, max}
use hlang.Base.Int.{
  ℤ, ltb_ℤ, eq_ℤ, of_bool, is_true, add64, sub64, mul64, neg64, div64, rem64, shl64, shr64, and64,
  or64, xor64, not64,
}
use hlang.Run.{ok, undefined, ◌>>=◌}
use hlang.Token.{
  Tok, Token, SrcLoc, blank, Punct, int_lit, minus, bang, tilde, l_paren, r_paren, shl, shr, pow,
  star, slash, percent, amp, caret, pipe, plus, lt, gt, le, ge, eq_eq, ne, and_and, xor_xor, or_or,
}
use hlang.Lexer.CondOps.{Apply, pure, dividing, test, power, both, either, one_of}
use hlang.Lexer.CondEval.Tiers.{Answer, apply}

-- the binary operators, and the unary ones
pub data Op : Type 0 where
  left right power_of times over rest_of band bxor bor add sub : Op
  less greater at_most at_least same differ conj xdisj disj : Op

pub data Sign : Type 0 where
  negate lnot inverse : Sign

pub data Tree : Type 0 where
  lit : ℤ → Tree
  sign : Sign → Tree → Tree
  join : Op → Tree → Tree → Tree

abbrev pub op_punct : Op → Punct
op_punct left = shl
op_punct right = shr
op_punct power_of = pow
op_punct times = star
op_punct over = slash
op_punct rest_of = percent
op_punct band = amp
op_punct bxor = caret
op_punct bor = pipe
op_punct add = plus
op_punct sub = minus
op_punct less = lt
op_punct greater = gt
op_punct at_most = le
op_punct at_least = ge
op_punct same = eq_eq
op_punct differ = ne
op_punct conj = and_and
op_punct xdisj = xor_xor
op_punct disj = or_or

abbrev pub sign_punct : Sign → Punct
sign_punct negate = minus
sign_punct lnot = bang
sign_punct inverse = tilde

-- What an operator means: arithmetic of `int64_t`, an error for a zero divisor, 1 or 0 for a test.
abbrev pub op_meaning : Op → Apply
op_meaning left v w = pure (shl64 v w)
op_meaning right v w = pure (shr64 v w)
op_meaning power_of v w = pure (power v w)
op_meaning times v w = pure (mul64 v w)
op_meaning over v w = dividing div64 v w
op_meaning rest_of v w = dividing rem64 v w
op_meaning band v w = ok (and64 v w, false)
op_meaning bxor v w = ok (xor64 v w, false)
op_meaning bor v w = ok (or64 v w, false)
op_meaning add v w = pure (add64 v w)
op_meaning sub v w = pure (sub64 v w)
op_meaning less v w = test ltb_ℤ v w
op_meaning greater v w = test (λ a b. ltb_ℤ b a) v w
op_meaning at_most v w = test (λ a b. not (ltb_ℤ b a)) v w
op_meaning at_least v w = test (λ a b. not (ltb_ℤ a b)) v w
op_meaning same v w = test eq_ℤ v w
op_meaning differ v w = test (λ a b. not (eq_ℤ a b)) v w
op_meaning conj v w = test both v w
op_meaning xdisj v w = test one_of v w
op_meaning disj v w = test either v w

abbrev pub sign_meaning : Sign → ℤ × Bool → Answer
sign_meaning negate (v, e) = elim (neg64 v) [ none ↦ undefined | some w ↦ ok (w, e) ]
sign_meaning lnot (v, e) = ok (of_bool (not (is_true v)), e)
sign_meaning inverse (v, e) = ok (not64 v, e)

-- The meaning of a tree: the operands from left to right, both of them always.
unfoldable pub meaning : Tree → Answer
meaning (lit v) = ok (v, false)
meaning (sign s t) = meaning t >>= sign_meaning s
meaning (join o a b) = apply (op_meaning o) (meaning a) (meaning b)

-- The spelling at some place: each operator stands in parentheses with its operands.
abbrev pub symbol : SrcLoc → Punct → Token
symbol l p = record (blank l) { kind = Tok.punct; punct = p }

unfoldable pub spell : SrcLoc → Tree → List Token
spell l (lit v) = record (blank l) { kind = int_lit; ival = v } ∷ []
spell l (sign s t) = symbol l (sign_punct s) ∷ spell l t
spell l (join o a b) =
    symbol l l_paren ∷ (spell l a ++ symbol l (op_punct o) ∷ (spell l b ++ symbol l r_paren ∷ []))

-- how deep the parentheses go
abbrev pub depth : Tree → ℕ
depth (lit v) = 0
depth (sign s t) = depth t
depth (join o a b) = suc (max (depth a) (depth b))
