-- ===== src/Parser/Levels/Budget.antt =====
-- src/parser.cpp: the levels of operators take no more tokens than there are, and end, if their
-- operands do.
use hlang.Base.{ℕ, zero, suc, Bool, List}
use hlang.Token.{Punct}
use hlang.Ast.{Expr}
use hlang.Parser.{Parser, M}
use hlang.Parser.Budget.{Within, within_rules}
use hlang.Parser.Levels.{
  binary_rounds, binary_loop, chain_rounds, parse_rel, parse_lor, unary_rounds, parse_unary,
}

module _ {st : Parser} {u : Bool} {b : ℕ} where
  binary_rounds-Within :
      (n : ℕ) (sub : M Expr) (ops : List Punct) (lhs : Expr)
      → Within st u 0 b sub
      → Within st u 0 b (binary_rounds n sub ops lhs)
  unfolding binary_rounds
  binary_rounds-Within zero sub ops lhs s = search within_rules
  binary_rounds-Within (suc n) sub ops lhs s =
      search (within_rules, λ (e : Expr). binary_rounds-Within n sub ops e s)

  pub binary_loop-Within :
      (sub : M Expr) (ops : List Punct)
      → Within st u 0 b sub
      → Within st u 0 b (binary_loop sub ops)
  unfolding binary_loop
  binary_loop-Within sub ops s =
      search (within_rules, λ (n : ℕ) (e : Expr). binary_rounds-Within n sub ops e s)

  chain_rounds-Within :
      (n : ℕ) (sub : M Expr) → Within st u 0 b sub → Within st u 0 b (chain_rounds n sub)
  unfolding chain_rounds
  chain_rounds-Within zero sub s = search within_rules
  chain_rounds-Within (suc n) sub s =
      let ih = chain_rounds-Within n sub s in search within_rules depth 8

  parse_rel-Within : (sub : M Expr) → Within st u 0 b sub → Within st u 0 b (parse_rel sub)
  unfolding parse_rel
  parse_rel-Within sub s = search (within_rules, λ (n : ℕ). chain_rounds-Within n sub s) depth 12

  pub parse_lor-Within : (sub : M Expr) → Within st u 0 b sub → Within st u 0 b (parse_lor sub)
  unfolding parse_lor
  parse_lor-Within sub s = search (binary_loop-Within, parse_rel-Within) depth 14

  unary_rounds-Within :
      (n : ℕ) (sub : M Expr) → Within st u 0 b sub → Within st u 0 b (unary_rounds n sub)
  unfolding unary_rounds
  unary_rounds-Within zero sub s = s
  unary_rounds-Within (suc n) sub s =
      let ih = unary_rounds-Within n sub s in search within_rules depth 8

  pub parse_unary-Within : (sub : M Expr) → Within st u 0 b sub → Within st u 0 b (parse_unary sub)
  unfolding parse_unary
  parse_unary-Within sub s = search (within_rules, λ (n : ℕ). unary_rounds-Within n sub s)
