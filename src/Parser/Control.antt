-- ===== src/Parser/Control.antt =====
-- src/parser.cpp: blocks and the statements that hold others, over `parseStmt`.
pub mod Budget
use hlang.Base.{
  ℕ, zero, suc, Bool, true, false, not, ◌&&◌, ◌||◌, List, [], ◌∷◌, ◌++◌, if◌then◌else◌, Bytes,
  Option, none, some, codes, bytes_eq, is_empty, length,
}
use hlang.Base.Int.{ℤ}
use hlang.Run.{ok, out_of_fuel}
use hlang.Token.{
  Tok, Token, SrcLoc, Punct, is, ◌=tok◌, semi, l_brace, r_brace, l_paren, r_paren, l_bracket,
  r_bracket, comma, colon, ellipsis, star,
}
use hlang.Ast.{Ty, Params, Expr, call, Args, no_args, arg}
use hlang.Ast
use hlang.Ast.Statement.{
  Declarator, Stmt, Stmts, no_stmts, empty, block, cond, while_loop, do_while, for_loop, switch,
  case_label, default_label, sub_start, sub_end, break_out, goto_label, label, return, var_decl,
  try_catch, no_warn, lock,
}
use hlang.Parser.{
  Parser, M, ◌>>=◌, ◌>>◌, give, get, no_fuel, tok, at, at_word, at_ident, at_eof, take, accept,
  expect, error, error_here, is_type_name, parse_base_type_no_stars, no_continue, no_typedef,
  label_after_goto, no_asm, local_class, unterminated_block, while_after_do, brace_after_try,
  catch_after_try, brace_after_catch, variable_name, nested_function,
}
use hlang.Parser.Levels.{tokens_left}
use hlang.Parser.Expression.{take_strings}
use hlang.Parser.Skip.{skip_to_semi, skip_brace_block}
use hlang.Parser.Declarator.{parse_declarator}
use hlang.Parser.Leaf.{
  declares, starts_decl, var_rounds, parse_goto, parse_label, refuse, expr_rounds, parse_expr_list,
  expr_unless, parenthesised, parse_print, parse_put_chars, parse_expr_stmt, parse_case,
  parse_return, parse_no_warn, parse_var_decl,
}

module _ (sub : M Stmt) where
  -- The loop of `parseBlock`, with whether the closing brace was found: a round takes a token.
  unfoldable pub block_rounds : ℕ → SrcLoc → M Stmts
  unfolding at at_eof take error ◌>>=◌
  block_rounds zero l = no_fuel
  block_rounds (suc n) l = do
    let one : M Stmts = (do s ← sub; ss ← block_rounds n l; give (Stmts.stmt s ss))
    closed ← get (at r_brace 0)
    ended ← get at_eof
    if closed
        then (do _ ← take; give no_stmts)
        else if ended
        then (do error l unterminated_block; give no_stmts)
        else one

  -- `parseBlock`, its statements
  unfoldable pub block_body : SrcLoc → M Stmts
  unfolding block_rounds ◌>>=◌
  block_body l = do n ← get tokens_left; block_rounds (suc n) l

  unfoldable pub parse_block : M (SrcLoc × Stmts)
  unfolding take block_body ◌>>=◌
  parse_block = do lb ← take; ss ← block_body lb.loc; give (lb.loc, ss)

  -- `parseTry`
  unfoldable pub parse_try : M Stmt
  unfolding take at at_word parse_block error_here ◌>>=◌
  parse_try = do
    kw ← take
    let handled : Stmts → M Stmt = λ body. do
      _ ← take
      braced ← get (at l_brace 0)
      let handler : M Stmt = (do (_, c) ← parse_block; give (try_catch kw.loc body c))
      if braced
          then handler
          else (do error_here brace_after_catch; give (try_catch kw.loc body no_stmts))
    let tried : M Stmt = do
      (_, body) ← parse_block
      caught ← get (at_word (codes "catch") 0)
      if caught
          then handled body
          else (do error_here catch_after_try; give (try_catch kw.loc body no_stmts))
    opened ← get (at l_brace 0)
    if opened
        then tried
        else (do error_here brace_after_try; give (try_catch kw.loc no_stmts no_stmts))

module _ (asg : M Expr) (sub : M Stmt) where
  -- `parseIf`
  unfoldable pub parse_if : M Stmt
  unfolding take parenthesised at_word ◌>>=◌
  parse_if = do
    kw ← take
    e ← parenthesised asg
    body ← sub
    more ← get (at_word (codes "else") 0)
    let branch : M Stmts = (do _ ← take; s ← sub; give (Stmts.stmt s no_stmts))
    other ← if more then branch else give no_stmts
    give (cond kw.loc e body other)

  -- `parseWhile`
  unfoldable pub parse_while : M Stmt
  unfolding take parenthesised ◌>>=◌
  parse_while = do kw ← take; e ← parenthesised asg; body ← sub; give (while_loop kw.loc e body)

  -- `parseDoWhile`
  unfoldable pub parse_do_while : M Stmt
  unfolding take at_word parenthesised expect error_here ◌>>=◌
  parse_do_while = do
    kw ← take
    body ← sub
    found ← get (at_word (codes "while") 0)
    let tested : M Stmt = do
      _ ← take
      e ← parenthesised asg
      expect semi
      give (do_while kw.loc body (some e))
    if found then tested else (do error_here while_after_do; give (do_while kw.loc body none))

  -- `parseFor`
  unfoldable pub parse_for : M Stmt
  unfolding take expect at parse_expr_list expr_unless ◌>>=◌
  parse_for = do
    kw ← take
    expect l_paren
    no_init ← get (at semi 0)
    init ← if no_init then give [] else parse_expr_list asg
    expect semi
    test ← expr_unless asg semi
    expect semi
    no_post ← get (at r_paren 0)
    post ← if no_post then give [] else parse_expr_list asg
    expect r_paren
    body ← sub
    give (for_loop kw.loc init test post body)

  -- `parseSwitch`
  unfoldable pub parse_switch : M Stmt
  unfolding take accept parenthesised expect ◌>>=◌
  parse_switch = do
    kw ← take
    unchecked ← accept l_bracket
    e ← if unchecked then (do e ← asg; expect r_bracket; give e) else parenthesised asg
    body ← sub
    give (switch kw.loc unchecked e body)
