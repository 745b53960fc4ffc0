-- ===== src/Parser/TopLevel/Budget.antt =====
-- src/parser.cpp: the functions and the global variables of a type end.
use hlang.Base.{ℕ, zero, suc, ◌≤◌, Bool, true, arith}
use hlang.Ast.{Ty, Params}
use hlang.Ast.Statement.{Declarator, Stmt}
use hlang.Parser.{Parser, M}
use hlang.Parser.Budget.{
  Within, Within-le, Within-tokens, accept-bind, accept-bind_none, within_rules, eats_rules,
}
use hlang.Parser.Expression.Budget.{take_stars-Within}
use hlang.Parser.Skip.Budget.{skip_to_semi-Within}
use hlang.Parser.Declarator.Budget.{parse_base_type_no_stars-eats}
use hlang.Parser.Control.Budget.{block_body-Within}
use hlang.Parser.TopLevel.{Quals, parse_func, global_rounds, parse_typed}

module _ {st : Parser} {b : ℕ} (params : M (Params × Bool)) (h : Within st true 0 b params)
    (sub : M Stmt) (x : Within st true 1 b sub) where
  parse_func-Within : (ret : Ty) (q : Quals) → Within st true 0 b (parse_func params sub ret q)
  unfolding parse_func
  parse_func-Within ret q = search (block_body-Within sub x, within_rules) depth 20

-- a comma stands between two rounds
module _ {st : Parser} (declarator : Ty → M (Bool × Declarator)) where
  global_rounds-Within :
      (n : ℕ) (first base : Ty) (q : Quals)
      → ((ty : Ty) → Within st true 0 n (declarator ty))
      → Within st true 0 n (global_rounds declarator (suc n) first base q)
  unfolding global_rounds
  global_rounds-Within zero first base q h =
      search (accept-bind_none, skip_to_semi-Within, within_rules) depth 14
  global_rounds-Within (suc n) first base q h =
      let ih : Within st true 0 n (global_rounds declarator (suc n) base base q) =
        global_rounds-Within n base base q λ ty. Within-le (omega arith) (h ty) in
      search (accept-bind, skip_to_semi-Within, within_rules) depth 14

module _ {st : Parser} {b : ℕ} (params : M (Params × Bool)) (h : Within st true 0 b params)
    (declarator : Ty → M (Bool × Declarator)) (d : (ty : Ty) → Within st true 0 b (declarator ty))
    (sub : M Stmt) (x : Within st true 1 b sub) where
  pub parse_typed-Within : (q : Quals) → Within st true 1 b (parse_typed params declarator sub q)
  unfolding parse_typed
  parse_typed-Within q =
      let rounds = λ (n : ℕ) (le : n ≤ b) (ty base : Ty).
        global_rounds-Within declarator n ty base q λ t. Within-le le (d t) in
      let function =
        λ (n : ℕ) (le : n ≤ b) (ty : Ty). Within-le le (parse_func-Within params h sub x ty q) in
      search
        (
          parse_base_type_no_stars-eats, take_stars-Within, Within-tokens, function, rounds,
          eats_rules,
        )
        depth 20 fits 20000
