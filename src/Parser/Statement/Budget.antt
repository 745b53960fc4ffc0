-- ===== src/Parser/Statement/Budget.antt =====
-- src/parser.cpp: with a unit of fuel for each token a statement is parsed.
use hlang.Base.{ℕ, zero, suc, ◌≤◌, ◌<◌, Bool, true, List, [], ◌∷◌, Bytes, Option, arith, length}
use hlang.Base.Int.{ℤ}
use hlang.Token.{Token, Tok, SrcLoc}
use hlang.Ast.{Params, Expr}
use hlang.Ast.Statement.{Stmt, default_label, sub_start, sub_end}
use hlang.Parser.{Parser, M}
use hlang.Parser.Budget.{
  Ends, Within, Within-le, Within-weaken, take-bind, take-eats, bind-eats_first, within_rules,
  eats_rules,
}
use hlang.Parser.Sound.{Sound}
use hlang.Parser.Skip.Budget.{skip_to_semi-Within, skip_brace_block-Within}
use hlang.Parser.Leaf.Budget.{
  parse_goto-Within, parse_label-Within, refuse-Within, parse_print-Within, parse_put_chars-Within,
  parse_expr_stmt-Within, parse_case-Within, parse_return-Within, parse_no_warn-Within,
  parse_var_decl-Within,
}
use hlang.Parser.Control.Budget.{
  parse_block-Within, parse_try-Within, parse_if-Within, parse_while-Within, parse_do_while-Within,
  parse_for-Within, parse_switch-Within,
}
use hlang.Parser.Keyword.{
  Keyword, if_word, while_word, do_word, for_word, switch_word, break_word, continue_word,
  typedef_word, goto_word, return_word, case_word, default_word, start_word, end_word, try_word,
  no_warn_word, lock_word, asm_word, class_word, static_word, no_keyword, keyword_of,
}
use hlang.Parser.Statement.{
  parse_other, parse_mark, parse_word, parse_punct, parse_stmt_at, parse_stmt,
}

module _ {st : Parser} {b : ℕ} (float_int : Bytes → Option ℤ) (params : M (Params × Bool))
    (h : Within st true 0 b params) (asg : M Expr) (s : Within st true 0 b asg) where
  parse_other-Within :
      (m : M Stmt) (t : Token)
      → Within st true 1 b m
      → Within st true 1 b (parse_other float_int params asg m t)
  unfolding parse_other
  parse_other-Within m t x =
      search (parse_label-Within, parse_var_decl-Within float_int params h asg s, eats_rules) depth
        14

  parse_mark-Within :
      (make : SrcLoc → Stmt) (t : Token)
      → Within st true 1 b (parse_mark float_int params asg make t)
  unfolding parse_mark
  parse_mark-Within make t =
      search (parse_label-Within, parse_other-Within, parse_expr_stmt-Within, eats_rules) depth 14

module _ {st : Parser} {b : ℕ} (float_int : Bytes → Option ℤ) (params : M (Params × Bool))
    (h : Within st true 0 (suc b) params) (asg : M Expr) (s : Within st true 0 (suc b) asg)
    (sub : M Stmt) (x : Within st true 1 b sub) where
  parse_word-Within :
      (t : Token) (k : Keyword) → Within st true 1 (suc b) (parse_word float_int params asg sub t k)
  unfolding parse_word
  parse_word-Within t if_word =
      parse_if-Within asg (Within-le (omega arith) s) sub (Within-weaken x)
  parse_word-Within t while_word =
      parse_while-Within asg (Within-le (omega arith) s) sub (Within-weaken x)
  parse_word-Within t do_word =
      parse_do_while-Within asg (Within-le (omega arith) s) sub (Within-weaken x)
  parse_word-Within t for_word =
      parse_for-Within asg (Within-le (omega arith) s) sub (Within-weaken x)
  parse_word-Within t switch_word =
      parse_switch-Within asg (Within-le (omega arith) s) sub (Within-weaken x)
  parse_word-Within t break_word = search eats_rules depth 10
  parse_word-Within t continue_word = search eats_rules depth 10
  parse_word-Within t typedef_word = refuse-Within t _ _ skip_to_semi-Within
  parse_word-Within t goto_word = parse_goto-Within
  parse_word-Within t return_word = parse_return-Within asg s
  parse_word-Within t case_word = parse_case-Within asg s
  parse_word-Within t default_word = parse_mark-Within float_int params h asg s default_label t
  parse_word-Within t start_word = parse_mark-Within float_int params h asg s sub_start t
  parse_word-Within t end_word = parse_mark-Within float_int params h asg s sub_end t
  parse_word-Within t try_word = parse_try-Within sub x
  parse_word-Within t no_warn_word = parse_no_warn-Within asg s
  parse_word-Within t lock_word =
      let y = Within-weaken x in search (take-bind, within_rules) depth 10
  parse_word-Within t asm_word = refuse-Within t _ _ skip_brace_block-Within
  parse_word-Within t class_word = refuse-Within t _ _ skip_to_semi-Within
  parse_word-Within t static_word =
      let declared = parse_var_decl-Within float_int params h asg s true in
      parse_other-Within float_int params h asg s _ t
        (bind-eats_first _ _ take-eats λ l. Within-weaken declared)
  parse_word-Within t no_keyword =
      parse_other-Within float_int params h asg s _ t (parse_expr_stmt-Within asg s)

  parse_punct-Within :
      (t : Token) → Within st true 1 (suc b) (parse_punct float_int params asg sub t)
  unfolding parse_punct
  parse_punct-Within t =
      let braced = parse_block-Within sub x in
      let other = parse_expr_stmt-Within asg s in search eats_rules depth 12

  parse_stmt_at-Within :
      (k : Tok) (t : Token) → Within st true 1 (suc b) (parse_stmt_at float_int params asg sub k t)
  unfolding parse_stmt_at
  parse_stmt_at-Within Tok.punct t = parse_punct-Within t
  parse_stmt_at-Within Tok.ident t = parse_word-Within t (keyword_of t.text)
  parse_stmt_at-Within Tok.str_lit t = parse_print-Within asg s
  parse_stmt_at-Within Tok.char_lit t = parse_put_chars-Within asg s
  parse_stmt_at-Within Tok.int_lit t = parse_expr_stmt-Within asg s
  parse_stmt_at-Within Tok.float_lit t = parse_expr_stmt-Within asg s
  parse_stmt_at-Within Tok.eof t = parse_expr_stmt-Within asg s

module _ {st : Parser} (float_int : Bytes → Option ℤ) (params : M (Params × Bool))
    (asg : M Expr) where
  -- at the end of the file an expression is looked for
  parse_stmt-Ends_empty :
      (f : ℕ) (p : Parser) (ts : List Token)
      → Within st true 0 0 asg
      → length ts ≤ 0
      → Sound st (record p { toks = ts })
      → Ends st true 1
          (length ts)
          (parse_stmt float_int params asg (suc f) (record p { toks = ts }))
  unfolding parse_stmt parse_stmt_at
  parse_stmt-Ends_empty f p [] a h s =
      (parse_expr_stmt-Within asg a).at (record p { toks = [] }) s h
  parse_stmt-Ends_empty f p (t ∷ ts) a h s = absurd (omega (arith, h))

  pub parse_stmt-Within :
      (f b : ℕ)
      → Within st true 0 b params
      → Within st true 0 b asg
      → b < f
      → Within st true 1 b (parse_stmt float_int params asg f)
  unfolding parse_stmt
  parse_stmt-Within zero b h s lt = absurd (omega (arith, lt))
  parse_stmt-Within (suc f) zero h s lt = record {
    at = λ p x l. parse_stmt-Ends_empty f p p.toks s l x;
  }
  parse_stmt-Within (suc f) (suc b) h s lt =
      let ih =
        parse_stmt-Within f b (Within-le (omega arith) h) (Within-le (omega arith) s)
          (omega (arith, lt)) in
      let any =
        parse_stmt_at-Within float_int params h asg s (parse_stmt float_int params asg f) ih in
      search (any, eats_rules) depth 8
