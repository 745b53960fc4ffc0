-- ===== src/Parser/Control/Budget.antt =====
-- src/parser.cpp: blocks and the statements that hold others end, with a unit of fuel for each token.
use hlang.Base.{ℕ, zero, suc, ◌≤◌, true, List, [], ◌∷◌, arith, length, refl}
use hlang.Token.{Token, SrcLoc}
use hlang.Ast.{Expr}
use hlang.Ast.Statement.{Stmt}
use hlang.Parser.{Parser, M}
use hlang.Parser.Budget.{
  Ends, Within, Within-le, Within-tokens, take-bind, bind-behind, within_rules,
}
use hlang.Parser.Sound.{there, Sound}
use hlang.Parser.Leaf.Budget.{parse_expr_list-Within, expr_unless-Within, parenthesised-Within}
use hlang.Parser.Control.{
  block_rounds, block_body, parse_block, parse_try, parse_if, parse_while, parse_do_while,
  parse_for, parse_switch,
}

-- at the end of the file the block is given up
block_rounds-Ends_empty :
    {st : Parser} (sub : M Stmt) (l : SrcLoc) (p : Parser) (ts : List Token)
    → length ts ≤ 0
    → Sound st (record p { toks = ts })
    → Ends st true 0 (length ts) (block_rounds sub 1 l (record p { toks = ts }))
unfolding block_rounds
block_rounds-Ends_empty sub l p [] h s =
    (omega arith, record { store = s.store; classes = s.classes; log = there s.log; tokens = refl })
block_rounds-Ends_empty sub l p (t ∷ ts) h s = absurd (omega (arith, h))

module _ {st : Parser} (sub : M Stmt) where
  block_rounds-Within :
      (n : ℕ) (l : SrcLoc)
      → Within st true 1 n sub
      → Within st true 0 n (block_rounds sub (suc n) l)
  unfolding block_rounds
  block_rounds-Within zero l h = record {
    at = λ p s le. block_rounds-Ends_empty sub l p p.toks le s;
  }
  block_rounds-Within (suc n) l h =
      let ih = block_rounds-Within n l (Within-le (omega arith) h) in
      search (bind-behind, within_rules) depth 14

module _ {st : Parser} {b : ℕ} (sub : M Stmt) (h : Within st true 1 b sub) where
  pub block_body-Within : (l : SrcLoc) → Within st true 0 b (block_body sub l)
  unfolding block_body
  block_body-Within l =
      let rounds = λ (n : ℕ) (le : n ≤ b). block_rounds-Within sub n l (Within-le le h) in
      search (Within-tokens, rounds)

  parse_block-Within_rest : Within st true 0 b (parse_block sub)
  unfolding parse_block
  parse_block-Within_rest = search (block_body-Within, within_rules) depth 10

  pub parse_block-Within : Within st true 1 (suc b) (parse_block sub)
  unfolding parse_block
  parse_block-Within = search (take-bind, block_body-Within, within_rules) depth 10

  pub parse_try-Within : Within st true 1 (suc b) (parse_try sub)
  unfolding parse_try
  parse_try-Within = search (take-bind, parse_block-Within_rest, within_rules) depth 24 fits 20000

module _ {st : Parser} {b : ℕ} (asg : M Expr) (s : Within st true 0 b asg) (sub : M Stmt)
    (h : Within st true 0 b sub) where
  pub parse_if-Within : Within st true 1 (suc b) (parse_if asg sub)
  unfolding parse_if
  parse_if-Within = search (take-bind, parenthesised-Within, within_rules) depth 20

  pub parse_while-Within : Within st true 1 (suc b) (parse_while asg sub)
  unfolding parse_while
  parse_while-Within = search (take-bind, parenthesised-Within, within_rules) depth 20

  pub parse_do_while-Within : Within st true 1 (suc b) (parse_do_while asg sub)
  unfolding parse_do_while
  parse_do_while-Within = search (take-bind, parenthesised-Within, within_rules) depth 20

  pub parse_for-Within : Within st true 1 (suc b) (parse_for asg sub)
  unfolding parse_for
  parse_for-Within =
      search (take-bind, parse_expr_list-Within, expr_unless-Within, within_rules) depth 30 fits
        20000

  pub parse_switch-Within : Within st true 1 (suc b) (parse_switch asg sub)
  unfolding parse_switch
  parse_switch-Within = search (take-bind, parenthesised-Within, within_rules) depth 20
