-- ===== src/Parser/Statement.antt =====
-- src/parser.cpp: `parseStmt`, which calls itself by a fuel of one unit for each nested call.
pub mod Budget
use hlang.Base.{
  ℕ, zero, suc, Bool, true, false, not, ◌&&◌, ◌||◌, List, [], ◌∷◌, ◌++◌, if◌then◌else◌, Bytes,
  Option, none, some, codes, bytes_eq, is_empty, length,
}
use hlang.Base.Int.{ℤ}
use hlang.Run.{ok, out_of_fuel}
use hlang.Token.{
  Tok, Token, SrcLoc, Punct, is, ◌=tok◌, semi, l_brace, r_brace, l_paren, r_paren, l_bracket,
  r_bracket, comma, colon, ellipsis, star,
}
use hlang.Ast.{Ty, Params, Expr, call, Args, no_args, arg}
use hlang.Ast
use hlang.Ast.Statement.{
  Declarator, Stmt, Stmts, no_stmts, empty, block, cond, while_loop, do_while, for_loop, switch,
  case_label, default_label, sub_start, sub_end, break_out, goto_label, label, return, var_decl,
  try_catch, no_warn, lock,
}
use hlang.Parser.{
  Parser, M, ◌>>=◌, ◌>>◌, give, get, no_fuel, tok, at, at_word, at_ident, at_eof, take, accept,
  expect, error, error_here, is_type_name, parse_base_type_no_stars, no_continue, no_typedef,
  label_after_goto, no_asm, local_class, unterminated_block, while_after_do, brace_after_try,
  catch_after_try, brace_after_catch, variable_name, nested_function,
}
use hlang.Parser.Levels.{tokens_left}
use hlang.Parser.Expression.{take_strings}
use hlang.Parser.Skip.{skip_to_semi, skip_brace_block}
use hlang.Parser.Declarator.{parse_declarator}
use hlang.Parser.Keyword.{
  Keyword, if_word, while_word, do_word, for_word, switch_word, break_word, continue_word,
  typedef_word, goto_word, return_word, case_word, default_word, start_word, end_word, try_word,
  no_warn_word, lock_word, asm_word, class_word, static_word, no_keyword, keyword_of,
}
use hlang.Parser.Leaf.{
  declares, starts_decl, var_rounds, parse_goto, parse_label, refuse, expr_rounds, parse_expr_list,
  expr_unless, parenthesised, parse_print, parse_put_chars, parse_expr_stmt, parse_case,
  parse_return, parse_no_warn, parse_var_decl,
}
use hlang.Parser.Control.{
  block_rounds, block_body, parse_block, parse_try, parse_if, parse_while, parse_do_while,
  parse_for, parse_switch,
}

module _ (float_int : Bytes → Option ℤ) (params : M (Params × Bool)) (asg : M Expr) where
  -- the statements that a word of `parseStmt` does not decide: a label, a declaration, an expression
  unfoldable pub parse_other : M Stmt → Token → M Stmt
  unfolding at is_type_name starts_decl parse_label parse_var_decl parse_expr_stmt ◌>>=◌
  parse_other static t = do
    colon_next ← get (at colon 1)
    typed ← get (is_type_name t)
    declaring ← get starts_decl
    if colon_next && not typed
        then parse_label (λ l. label l t.text)
        else if typed && declaring
        then parse_var_decl float_int params asg false
        else static

  -- a label of the language's own, or what else the word may be
  unfoldable pub parse_mark : (SrcLoc → Stmt) → Token → M Stmt
  unfolding at parse_label parse_other parse_expr_stmt ◌>>=◌
  parse_mark make t = do
    let other = parse_other (parse_expr_stmt asg) t
    marked ← get (at colon 1)
    if marked then parse_label make else other

  -- `parseStmt` at a word
  unfoldable pub parse_word : M Stmt → Token → Keyword → M Stmt
  unfolding take expect refuse skip_to_semi skip_brace_block parse_if parse_while parse_do_while
      parse_for parse_switch parse_goto parse_return parse_case parse_mark parse_try parse_no_warn
      parse_other parse_var_decl parse_expr_stmt accept ◌>>=◌
  parse_word sub t if_word = parse_if asg sub
  parse_word sub t while_word = parse_while asg sub
  parse_word sub t do_word = parse_do_while asg sub
  parse_word sub t for_word = parse_for asg sub
  parse_word sub t switch_word = parse_switch asg sub
  parse_word sub t break_word = do b ← take; expect semi; give (break_out b.loc)
  parse_word sub t continue_word = do
    error t.loc no_continue
    _ ← take
    _ ← accept semi
    give (empty t.loc)
  parse_word sub t typedef_word = refuse t no_typedef skip_to_semi
  parse_word sub t goto_word = parse_goto
  parse_word sub t return_word = parse_return asg
  parse_word sub t case_word = parse_case asg
  parse_word sub t default_word = parse_mark default_label t
  parse_word sub t start_word = parse_mark sub_start t
  parse_word sub t end_word = parse_mark sub_end t
  parse_word sub t try_word = parse_try sub
  parse_word sub t no_warn_word = parse_no_warn asg
  parse_word sub t lock_word = do l ← take; s ← sub; give (lock l.loc s)
  parse_word sub t asm_word = refuse t no_asm skip_brace_block
  parse_word sub t class_word = refuse t local_class skip_to_semi
  parse_word sub t static_word =
      parse_other (do _ ← take; parse_var_decl float_int params asg true) t
  parse_word sub t no_keyword = parse_other (parse_expr_stmt asg) t

  -- `parseStmt` at a punctuator
  unfoldable pub parse_punct : M Stmt → Token → M Stmt
  unfolding take is parse_block parse_expr_stmt ◌>>=◌
  parse_punct sub t =
      let braced : M Stmt = (do (l, ss) ← parse_block sub; give (block l ss)) in
      if is semi t
      then (do s ← take; give (empty s.loc))
      else if is l_brace t
      then braced
      else parse_expr_stmt asg

  unfoldable pub parse_stmt_at : M Stmt → Tok → Token → M Stmt
  unfolding parse_punct parse_word keyword_of parse_print parse_put_chars parse_expr_stmt
  parse_stmt_at sub Tok.punct t = parse_punct sub t
  parse_stmt_at sub Tok.ident t = parse_word sub t (keyword_of t.text)
  parse_stmt_at sub Tok.str_lit t = parse_print asg
  parse_stmt_at sub Tok.char_lit t = parse_put_chars asg
  parse_stmt_at sub _ t = parse_expr_stmt asg

  -- `parseStmt`
  unfoldable pub parse_stmt : ℕ → M Stmt
  unfolding parse_stmt_at tok ◌>>=◌
  parse_stmt zero = no_fuel
  parse_stmt (suc f) = do let sub = parse_stmt f; t ← get (tok 0); parse_stmt_at sub t.kind t
