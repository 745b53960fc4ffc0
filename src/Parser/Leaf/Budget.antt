-- ===== src/Parser/Leaf/Budget.antt =====
-- src/parser.cpp: each of the statements that hold no other takes a token, and ends.
use hlang.Base.{ℕ, zero, suc, ◌≤◌, Bool, true, false, List, Bytes, Option, arith}
use hlang.Base.Int.{ℤ}
use hlang.Token.{Token, Punct, SrcLoc}
use hlang.Ast.{Ty, Params, Expr}
use hlang.Ast.Statement.{Declarator, Stmt}
use hlang.Parser.{Parser, M, Message}
use hlang.Parser.Budget.{
  Within, Within-le, Within-tokens, accept-bind, accept-bind_none, within_rules, eats_rules,
}
use hlang.Parser.Expression.Budget.{take_strings-Within}
use hlang.Parser.Skip.Budget.{skip_to_semi-Within, skip_brace_block-Within}
use hlang.Parser.Declarator.Budget.{parse_declarator-Within, parse_base_type_no_stars-eats}
use hlang.Parser.Declarator.{parse_declarator}
use hlang.Parser.Leaf.{
  next_vars, var_rounds, parse_goto, parse_label, refuse, expr_rounds, parse_expr_list, expr_unless,
  parenthesised, parse_print, parse_put_chars, parse_expr_stmt, parse_case, parse_return,
  parse_no_warn, parse_var_decl,
}

module _ {st : Parser} {u : Bool} {b : ℕ} where
  pub parse_goto-Within : Within st u 1 b parse_goto
  unfolding parse_goto
  parse_goto-Within = search eats_rules depth 16

  pub parse_label-Within : (make : SrcLoc → Stmt) → Within st u 1 b (parse_label make)
  unfolding parse_label
  parse_label-Within make = search eats_rules depth 10

  pub refuse-Within :
      (t : Token) (m : Message) (skip : M (Unit {0}))
      → Within st u 0 b skip
      → Within st u 1 b (refuse t m skip)
  unfolding refuse
  refuse-Within t m skip h = search eats_rules depth 10

module _ {st : Parser} {u : Bool} {b : ℕ} (asg : M Expr) (s : Within st u 0 b asg) where
  expr_rounds-Within : (n : ℕ) → Within st u 0 b (expr_rounds asg n)
  unfolding expr_rounds
  expr_rounds-Within zero = search within_rules
  expr_rounds-Within (suc n) = let ih = expr_rounds-Within n in search within_rules depth 12

  pub parse_expr_list-Within : Within st u 0 b (parse_expr_list asg)
  unfolding parse_expr_list
  parse_expr_list-Within = search (expr_rounds-Within, within_rules) depth 10

  pub expr_unless-Within : (q : Punct) → Within st u 0 b (expr_unless asg q)
  unfolding expr_unless
  expr_unless-Within q = search within_rules depth 10

  pub parenthesised-Within : Within st u 0 b (parenthesised asg)
  unfolding parenthesised
  parenthesised-Within = search within_rules depth 10

  pub parse_print-Within : Within st u 1 b (parse_print asg)
  unfolding parse_print
  parse_print-Within = search (take_strings-Within, expr_rounds-Within, eats_rules) depth 16

  pub parse_put_chars-Within : Within st u 1 b (parse_put_chars asg)
  unfolding parse_put_chars
  parse_put_chars-Within = search eats_rules depth 12

  pub parse_expr_stmt-Within : Within st u 1 b (parse_expr_stmt asg)
  unfolding parse_expr_stmt
  parse_expr_stmt-Within = search eats_rules depth 12

  pub parse_case-Within : Within st u 1 b (parse_case asg)
  unfolding parse_case
  parse_case-Within = search (expr_unless-Within, eats_rules) depth 16

  pub parse_return-Within : Within st u 1 b (parse_return asg)
  unfolding parse_return
  parse_return-Within = search (expr_unless-Within, eats_rules) depth 12

  pub parse_no_warn-Within : Within st u 1 b (parse_no_warn asg)
  unfolding parse_no_warn
  parse_no_warn-Within = search (parse_expr_list-Within, eats_rules) depth 12

-- a comma stands between two rounds
module _ {st : Parser} {u : Bool} where
  next_vars-Within_none :
      (others : M (List Declarator)) (d : Declarator) → Within st u 0 0 (next_vars others d)
  unfolding next_vars
  next_vars-Within_none others d =
      search (accept-bind_none, skip_brace_block-Within, within_rules) depth 14

  next_vars-Within :
      {b : ℕ} (others : M (List Declarator)) (d : Declarator)
      → Within st u 0 b others
      → Within st u 0 (suc b) (next_vars others d)
  unfolding next_vars
  next_vars-Within others d h = search (accept-bind, skip_brace_block-Within, within_rules) depth 14

  var_rounds-Within :
      (n : ℕ) (declarator : Ty → M (Bool × Declarator)) (base : Ty)
      → ((ty : Ty) → Within st u 0 n (declarator ty))
      → Within st u 0 n (var_rounds (suc n) declarator base)
  unfolding var_rounds
  var_rounds-Within zero declarator base h =
      search (next_vars-Within_none, skip_to_semi-Within, within_rules) depth 14
  var_rounds-Within (suc n) declarator base h =
      let ih : Within st u 0 n (var_rounds (suc n) declarator base) =
        var_rounds-Within n declarator base λ ty. Within-le (omega arith) (h ty) in
      search (next_vars-Within, skip_to_semi-Within, within_rules) depth 14

module _ {st : Parser} {b : ℕ} (float_int : Bytes → Option ℤ) (params : M (Params × Bool))
    (h : Within st true 0 b params) (asg : M Expr) (s : Within st true 0 b asg) where
  pub parse_var_decl-Within :
      (x : Bool) → Within st true 1 b (parse_var_decl float_int params asg x)
  unfolding parse_var_decl
  parse_var_decl-Within x =
      let rounds = λ (n : ℕ) (le : n ≤ b) (base : Ty).
        var_rounds-Within n (λ ty. parse_declarator float_int asg params ty true false) base
          λ ty. Within-le le (parse_declarator-Within float_int asg s params h ty true false) in
      search (parse_base_type_no_stars-eats, Within-tokens, rounds, eats_rules) depth 12
