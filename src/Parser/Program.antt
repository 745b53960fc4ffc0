-- ===== src/Parser/Program.antt =====
-- src/parser.cpp: `run`, with the members that call themselves tied together. Each spends a unit of
-- fuel where it is entered.
use hlang.Base.{ℕ, suc, Bool, true, false, List, Bytes, Option}
use hlang.Base.Int.{ℤ}
use hlang.Ast.{Ty}
use hlang.Ast.Statement.{Declarator, Stmt}
use hlang.Ast.Program.{TopItem}
use hlang.Parser.{M, ◌>>=◌, get}
use hlang.Parser.Levels.{tokens_left}
use hlang.Parser.Expression.{parse_assign}
use hlang.Parser.Declarator.{parse_declarator, parse_params}
use hlang.Parser.Statement.{parse_stmt}
use hlang.Parser.TopLevel.{parse_top_level, program_rounds}
use hlang.Parser.ClassDef.{parse_class_def}

module _ (float_int : Bytes → Option ℤ) (f : ℕ) where
  unfoldable pub statement : M Stmt
  unfolding parse_assign parse_params parse_stmt
  statement = let asg = parse_assign f in parse_stmt float_int (parse_params float_int asg f) asg f

  unfoldable pub top_level : M (List TopItem)
  unfolding parse_assign parse_params statement parse_declarator parse_top_level parse_class_def
  top_level =
      let asg = parse_assign f in
      let params = parse_params float_int asg f in
      let declarator : Bool → Ty → M (Bool × Declarator) =
        λ allow_init ty. parse_declarator float_int asg params ty allow_init false in
      parse_top_level params (declarator true) statement (parse_class_def asg declarator)

  -- `run`
  unfoldable pub program : M (List TopItem)
  unfolding top_level program_rounds ◌>>=◌
  program = do n ← get tokens_left; program_rounds (suc n) top_level
