-- ===== src/Parser/Levels.antt =====
-- src/parser.cpp: the levels of binary operators, and the prefix operators, as functions of the
-- level below them.
pub mod Budget
use hlang.Base.{ℕ, zero, suc, Bool, true, false, ◌||◌, List, [], ◌∷◌, if◌then◌else◌, length}
use hlang.Run.{ok}
use hlang.Token.{
  Token, Punct, is, or_or, xor_xor, and_and, eq_eq, ne, lt, gt, le, ge, plus, minus, pipe, caret,
  amp, star, slash, percent, pow, shl, shr, bang, tilde, plus_plus, minus_minus,
}
use hlang.Ast.{Expr, Links, binary, chain_cmp, last, link, unary}
use hlang.Parser.{Parser, M, ◌>>=◌, give, get, tok, take}

-- the operator at hand, if it is one of some
abbrev pub one_of : List Punct → Token → Bool
one_of [] t = false
one_of (q ∷ qs) t = is q t || one_of qs t

-- The loop of `binaryLoop`. A round takes a token, so the tokens at hand are enough fuel, and none
-- is left where it runs out.
unfoldable pub binary_rounds : ℕ → M Expr → List Punct → Expr → M Expr
unfolding take tok is ◌>>=◌
binary_rounds zero sub ops lhs = give lhs
binary_rounds (suc n) sub ops lhs = do
  let more : M Expr = do
    op ← take
    rhs ← sub
    binary_rounds n sub ops (binary op.loc op.punct lhs rhs)
  t ← get (tok 0)
  if one_of ops t then more else give lhs

abbrev pub tokens_left : Parser → ℕ
tokens_left p = length p.toks

-- `binaryLoop`
unfoldable pub binary_loop : M Expr → List Punct → M Expr
unfolding binary_rounds ◌>>=◌
binary_loop sub ops = do lhs ← sub; n ← get tokens_left; binary_rounds n sub ops lhs

abbrev pub relations : List Punct
relations = lt ∷ gt ∷ le ∷ ge ∷ []

-- the loop of `parseRel`
unfoldable pub chain_rounds : ℕ → M Expr → M Links
unfolding take tok is ◌>>=◌
chain_rounds zero sub = give last
chain_rounds (suc n) sub = do
  let more : M Links = do
    op ← take
    rhs ← sub
    rest ← chain_rounds n sub
    give (link op.punct rhs rest)
  t ← get (tok 0)
  if one_of relations t then more else give last

-- `parseRel`, over `parseAdd`
unfoldable pub parse_rel : M Expr → M Expr
unfolding chain_rounds tok is ◌>>=◌
parse_rel sub = do
  first ← sub
  t ← get (tok 0)
  n ← get tokens_left
  let chained : M Expr = do links ← chain_rounds n sub; give (chain_cmp t.loc first links)
  if one_of relations t then chained else give first

-- `parsePow`, `parseMul`, `parseBand`, `parseBxor`, `parseBor`, `parseAdd`, `parseRel`, `parseEq`,
-- `parseLand`, `parseLxor`, `parseLor`, over `parseUnary`
unfoldable pub parse_lor : M Expr → M Expr
unfolding binary_loop parse_rel
parse_lor prefixed =
    let powers = binary_loop prefixed (pow ∷ shl ∷ shr ∷ []) in
    let products = binary_loop powers (star ∷ slash ∷ percent ∷ []) in
    let ands = binary_loop products (amp ∷ []) in
    let xors = binary_loop ands (caret ∷ []) in
    let ors = binary_loop xors (pipe ∷ []) in
    let sums = binary_loop ors (plus ∷ minus ∷ []) in
    let equalities = binary_loop (parse_rel sums) (eq_eq ∷ ne ∷ []) in
    let conjunctions = binary_loop equalities (and_and ∷ []) in
    let differences = binary_loop conjunctions (xor_xor ∷ []) in
    binary_loop differences (or_or ∷ [])

abbrev pub prefix_ops : List Punct
prefix_ops = bang ∷ tilde ∷ minus ∷ plus ∷ star ∷ amp ∷ plus_plus ∷ minus_minus ∷ []

-- `parseUnary`, over `parsePostfix`: a round takes a token.
unfoldable pub unary_rounds : ℕ → M Expr → M Expr
unfolding take tok is ◌>>=◌
unary_rounds zero postfixed = postfixed
unary_rounds (suc n) postfixed = do
  let more : M Expr = do
    op ← take
    e ← unary_rounds n postfixed
    give (unary op.loc op.punct true e)
  t ← get (tok 0)
  if one_of prefix_ops t then more else postfixed

unfoldable pub parse_unary : M Expr → M Expr
unfolding unary_rounds ◌>>=◌
parse_unary postfixed = do n ← get tokens_left; unary_rounds n postfixed
