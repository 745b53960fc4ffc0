-- ===== src/Parser/Leaf.antt =====
-- src/parser.cpp: the statements that hold no other, over `parseExpr` and `parseParams`.
pub mod Budget
use hlang.Base.{
  ℕ, zero, suc, Bool, true, false, not, ◌&&◌, ◌||◌, List, [], ◌∷◌, ◌++◌, if◌then◌else◌, Bytes,
  Option, none, some, codes, bytes_eq, is_empty, length,
}
use hlang.Base.Int.{ℤ}
use hlang.Run.{ok, out_of_fuel}
use hlang.Token.{
  Tok, Token, SrcLoc, Punct, is, ◌=tok◌, semi, l_brace, r_brace, l_paren, r_paren, l_bracket,
  r_bracket, comma, colon, ellipsis, star,
}
use hlang.Ast.{Ty, Params, Expr, call, Args, no_args, arg}
use hlang.Ast
use hlang.Ast.Statement.{
  Declarator, Stmt, Stmts, no_stmts, empty, block, cond, while_loop, do_while, for_loop, switch,
  case_label, default_label, sub_start, sub_end, break_out, goto_label, label, return, var_decl,
  try_catch, no_warn, lock,
}
use hlang.Parser.{
  Parser, M, ◌>>=◌, ◌>>◌, give, get, no_fuel, tok, at, at_word, at_ident, at_eof, take, accept,
  expect, error, error_here, on_option, is_type_name, parse_base_type_no_stars, no_continue,
  no_typedef, label_after_goto, no_asm, local_class, unterminated_block, while_after_do,
  brace_after_try, catch_after_try, brace_after_catch, variable_name, nested_function,
}
use hlang.Parser.Levels.{tokens_left}
use hlang.Parser.Expression.{take_strings}
use hlang.Parser.Skip.{skip_to_semi, skip_brace_block}
use hlang.Parser.Declarator.{parse_declarator}

-- `startsDecl`, at the tokens behind the type name
unfoldable pub declares : List Token → Bool
unfolding is
declares [] = false
declares (t ∷ []) = t.kind =tok Tok.ident
declares (t ∷ u ∷ ts) =
    let more = declares (u ∷ ts) in
    if is star t then more else t.kind =tok Tok.ident || is l_paren t && is star u

unfoldable pub starts_decl : Parser → Bool
unfolding declares
starts_decl p = elim p.toks [ [] ↦ false | t ∷ ts ↦ declares ts ]

-- what follows a declarator: others behind a comma, or the end of the statement
unfoldable pub next_vars : M (List Declarator) → Declarator → M (List Declarator)
unfolding accept at expect error_here skip_brace_block ◌>>=◌
next_vars others d = do
  let rest : M (List Declarator) = (do ds ← others; give (d ∷ ds))
  let nested : M (List Declarator) = do error_here nested_function; skip_brace_block; give (d ∷ [])
  let last : M (List Declarator) = do
    body ← get (at l_paren 0)
    if body then nested else (do expect semi; give (d ∷ []))
  again ← accept comma
  if again then rest else last

-- The loop of `parseVarDeclStmt`: a round takes a comma.
unfoldable pub var_rounds : ℕ → (Ty → M (Bool × Declarator)) → Ty → M (List Declarator)
unfolding error_here skip_to_semi next_vars ◌>>=◌
var_rounds zero declarator base = no_fuel
var_rounds (suc n) declarator base = do
  let others = var_rounds n declarator base
  let refused : M (List Declarator) = (do error_here variable_name; skip_to_semi; give [])
  (found, d) ← declarator base
  if found then next_vars others d else refused

-- `goto`
unfoldable pub parse_goto : M Stmt
unfolding take at_ident expect error_here ◌>>=◌
parse_goto = do
  g ← take
  named ← get (at_ident 0)
  name ← if named then (do t ← take; give t.text) else (do error_here label_after_goto; give [])
  expect semi
  give (goto_label g.loc name)

-- a label of one word and a colon
unfoldable pub parse_label : (SrcLoc → Stmt) → M Stmt
unfolding take ◌>>=◌
parse_label make = do name ← take; _ ← take; give (make name.loc)

-- a statement that is refused, and passed over
unfoldable pub refuse : Token → hlang.Parser.Message → M (Unit {0}) → M Stmt
unfolding error take ◌>>=◌
refuse t m skip = do error t.loc m; _ ← take; skip; give (empty t.loc)

module _ (asg : M Expr) where
  -- The loop of `parseExprList`: a round takes a comma.
  unfoldable pub expr_rounds : ℕ → M (List Expr)
  unfolding accept ◌>>=◌
  expr_rounds zero = give []
  expr_rounds (suc n) = do
    let one : M (List Expr) = (do e ← asg; es ← expr_rounds n; give (e ∷ es))
    again ← accept comma
    if again then one else give []

  -- `parseExprList`
  unfoldable pub parse_expr_list : M (List Expr)
  unfolding expr_rounds ◌>>=◌
  parse_expr_list = do e ← asg; n ← get tokens_left; es ← expr_rounds n; give (e ∷ es)

  -- an expression, unless a punctuator is at hand
  unfoldable pub expr_unless : Punct → M (Option Expr)
  unfolding at ◌>>=◌
  expr_unless q = do
    absent ← get (at q 0)
    if absent then give none else (do e ← asg; give (some e))

  -- an expression in parentheses
  unfoldable pub parenthesised : M Expr
  unfolding expect ◌>>=◌
  parenthesised = do expect l_paren; e ← asg; expect r_paren; give e

  abbrev args_of : List Expr → Args
  args_of [] = no_args
  args_of (e ∷ es) = arg e (args_of es)

  -- `parsePrintStmt`
  unfoldable pub parse_print : M Stmt
  unfolding tok take_strings at expr_rounds expect ◌>>=◌
  parse_print = do
    first ← get (tok 0)
    fmt ← take_strings []
    plain ← get (λ p. at comma 0 p || at semi 0 p)
    let variable : M Expr = asg
    e ← if not plain && is_empty fmt then variable else give (Ast.str_lit first.loc fmt)
    n ← get tokens_left
    es ← expr_rounds n
    expect semi
    give (
        Stmt.expr first.loc
          (call first.loc (Ast.ident first.loc (codes "Print")) (arg e (args_of es))))

  -- `parsePutCharsStmt`
  unfoldable pub parse_put_chars : M Stmt
  unfolding take expect ◌>>=◌
  parse_put_chars = do
    lit ← take
    let written = give (Ast.char_lit lit.loc lit.ival (length lit.text))
    e ← if is_empty lit.text then asg else written
    expect semi
    give (Stmt.expr lit.loc (call lit.loc (Ast.ident lit.loc (codes "PutChars")) (arg e no_args)))

  -- an expression statement, at the token where it begins
  unfoldable pub parse_expr_stmt : M Stmt
  unfolding tok expect ◌>>=◌
  parse_expr_stmt = do t ← get (tok 0); e ← asg; expect semi; give (Stmt.expr t.loc e)

  -- `parseCase`
  unfoldable pub parse_case : M Stmt
  unfolding take expr_unless accept expect ◌>>=◌
  parse_case = do
    kw ← take
    lo ← expr_unless colon
    let upper : M (Option Expr) = do
      ranged ← accept ellipsis
      if ranged then (do e ← asg; give (some e)) else give none
    hi ← on_option lo (give none) (λ e'. upper)
    expect colon
    give (case_label kw.loc lo hi)

  -- `return`
  unfoldable pub parse_return : M Stmt
  unfolding take expr_unless expect ◌>>=◌
  parse_return = do r ← take; e ← expr_unless semi; expect semi; give (return r.loc e)

  -- `no_warn`: the expressions are parsed and dropped
  unfoldable pub parse_no_warn : M Stmt
  unfolding take at parse_expr_list expect ◌>>=◌
  parse_no_warn = do
    w ← take
    bare ← get (at semi 0)
    _ ← if bare then give [] else parse_expr_list
    expect semi
    give (no_warn w.loc)

module _ (float_int : Bytes → Option ℤ) (params : M (Params × Bool)) (asg : M Expr) where
  -- `parseVarDeclStmt`
  unfoldable pub parse_var_decl : Bool → M Stmt
  unfolding tok parse_base_type_no_stars parse_declarator var_rounds ◌>>=◌
  parse_var_decl is_static = do
    first ← get (tok 0)
    base ← parse_base_type_no_stars
    n ← get tokens_left
    ds ← var_rounds (suc n) (λ ty. parse_declarator float_int asg params ty true false) base
    give (var_decl first.loc is_static ds)
