-- ===== src/Parser/Expression.antt =====
-- src/parser.cpp: the expressions. Every member below the assignments is a function of
-- `parseAssign`, which alone calls itself, by a fuel of one unit for each nested call.
pub mod Budget
pub mod Quoted
use hlang.Base.{
  ℕ, zero, suc, false, not, Option, ◌&&◌, ◌||◌, List, [], ◌∷◌, ◌++◌, if◌then◌else◌, Bytes, none,
  some, codes, length, bytes_eq,
}
use hlang.Base.Int.{pos}
use hlang.Run.{Run, ok, undefined, out_of_fuel}
use hlang.Token.{
  Tok, Token, Punct, is, ◌=tok◌, punct_eq, assign, plus_eq, minus_eq, star_eq, slash_eq, percent_eq,
  shl_eq, shr_eq, amp_eq, pipe_eq, caret_eq, question, colon, plus_plus, minus_minus, l_paren,
  r_paren, l_bracket, r_bracket, l_brace, r_brace, dot, arrow, comma, dollar,
}
use hlang.Ast.{
  Expr, Links, Args, binary, chain_cmp, last, link, call, index, member, cast, unary, sizeof_type,
  sizeof_expr, offset_of, last_class, init_list, no_args, arg, skipped, i64, find_member, Member,
}
use hlang.Ast
use hlang.Parser.{
  M, ◌>>=◌, ◌>>◌, give, get, no_fuel, on_option, tok, at, take, accept, expect, error, error_here,
  no_question_colon, member_name, expected_expression, dollar_unsupported, sizeof_member_name,
  no_such_member, offset_class, offset_member, looks_like_cast, parse_base_type, find_class,
  is_type_name,
}
use hlang.Parser.Levels.{one_of, tokens_left, parse_lor, parse_unary}

-- The loop of `parseCallArgs`: a round that goes on takes a comma.
unfoldable pub call_rounds : ℕ → M Expr → M Args
unfolding accept at expect ◌>>=◌
call_rounds zero asg = no_fuel
call_rounds (suc n) asg = do
  let behind : (Args → Args) → M Args = λ wrap. do
    let rest : M Args = do xs ← call_rounds n asg; give (wrap xs)
    more ← accept comma
    if more then rest else (do expect r_paren; give (wrap no_args))
  empty ← get (λ q. at comma 0 q || at r_paren 0 q)
  if empty then behind skipped else (do e ← asg; behind (arg e))

-- `parseCallArgs`
unfoldable pub parse_call_args : M Expr → M Args
unfolding accept call_rounds ◌>>=◌
parse_call_args asg = do
  empty ← accept r_paren
  n ← get tokens_left
  if empty then give no_args else call_rounds (suc n) asg

-- a round of the loop of `parsePostfix`: none where it returns
pub data Suffix : Type 0 where
  done : Expr → Suffix
  more : Expr → Suffix

-- a `.` or a `->`
unfoldable pub parse_member : Expr → M Suffix
unfolding take tok error_here ◌>>=◌
parse_member e = do
  op ← take
  t ← get (tok 0)
  let named : M Suffix = do
    name ← take
    give (more (member op.loc e name.text (punct_eq op.punct arrow)))
  if t.kind =tok Tok.ident then named else (do error_here member_name; give (done e))

unfoldable pub suffix : M Expr → Expr → M Suffix
unfolding looks_like_cast parse_base_type expect take at tok is parse_call_args parse_member ◌>>=◌
suffix asg e = do
  let as_cast : M Suffix = do
    lp ← take
    ty ← parse_base_type
    expect r_paren
    give (more (cast lp.loc e ty))
  let as_call : M Suffix = do lp ← take; xs ← parse_call_args asg; give (more (call lp.loc e xs))
  let as_index : M Suffix = do lb ← take; i ← asg; expect r_bracket; give (more (index lb.loc e i))
  let as_step : M Suffix = (do op ← take; give (more (unary op.loc op.punct false e)))
  casts ← get looks_like_cast
  calls ← get (at l_paren 0)
  indexes ← get (at l_bracket 0)
  selects ← get (λ p. at dot 0 p || at arrow 0 p)
  steps ← get (λ p. at plus_plus 0 p || at minus_minus 0 p)
  if casts
      then as_cast
      else if calls
      then as_call
      else if indexes
      then as_index
      else if selects
      then parse_member e
      else if steps
      then as_step
      else give (done e)

abbrev pub resume : (Expr → M Expr) → Suffix → M Expr
resume k (done e) = give e
resume k (more e) = k e

-- The loop of `parsePostfix`: a round that goes on takes a token.
unfoldable pub postfix_rounds : ℕ → M Expr → Expr → M Expr
unfolding suffix ◌>>=◌
postfix_rounds zero asg e = give e
postfix_rounds (suc n) asg e = do s ← suffix asg e; resume (λ e'. postfix_rounds n asg e') s

unfoldable pub parse_postfix : M Expr → M Expr → M Expr
unfolding postfix_rounds ◌>>=◌
parse_postfix primary asg = do e ← primary; n ← get tokens_left; postfix_rounds n asg e

-- adjacent string literals
unfoldable pub strings : Bytes → List Token → Bytes × List Token
strings s [] = (s, [])
strings s (t ∷ ts) =
    let next = strings (s ++ t.text) ts in if t.kind =tok Tok.str_lit then next else (s, t ∷ ts)

unfoldable pub take_strings : Bytes → M Bytes
unfolding strings
take_strings s p = let r = strings s p.toks in ok (r.0, record p { toks = r.1 })

-- the loop of `parseInitList`
unfoldable pub init_rounds : ℕ → M Expr → M Args
unfolding accept at ◌>>=◌
init_rounds zero asg = no_fuel
init_rounds (suc n) asg = do
  e ← asg
  let rest : M Args = do xs ← init_rounds n asg; give (arg e xs)
  again ← accept comma
  trailing ← get (at r_brace 0)
  if again && not trailing then rest else give (arg e no_args)

-- `parseInitList`
unfoldable pub parse_init_list : M Expr → M Expr
unfolding take accept init_rounds expect ◌>>=◌
parse_init_list asg = do
  lb ← take
  empty ← accept r_brace
  n ← get tokens_left
  let full : M Expr = do xs ← init_rounds (suc n) asg; expect r_brace; give (init_list lb.loc xs)
  if empty then give (init_list lb.loc no_args) else full

-- The type of a member of a class, in `sizeof(class.member)`. The fuel is for the chain of bases.
unfoldable pub find : ℕ → ℕ → Bytes → M (Option Member)
unfolding find_member
find f k name p = hlang.Run.◌>>=◌ (find_member f p.store k name) λ m. ok (m, p)

unfoldable pub member_type : ℕ → Token → ℕ → Bytes → M Ast.Ty
unfolding find error ◌>>=◌
member_type f kw k name = do
  found ← find f k name
  on_option found (do error kw.loc no_such_member; give i64) (λ m. give m.type)

-- `sizeof(class.member)`, at the class's name
unfoldable pub sizeof_member : ℕ → Token → ℕ → M Ast.Ty
unfolding take tok error_here member_type ◌>>=◌
sizeof_member f kw k = do
  _ ← take
  _ ← take
  t ← get (tok 0)
  let named : M Ast.Ty = do name ← take; member_type f kw k name.text
  if t.kind =tok Tok.ident then named else (do error_here sizeof_member_name; give i64)

-- the operand of `sizeof`: a type, a member of a class, or an expression
unfoldable pub sizeof_operand : ℕ → M Expr → Token → M Expr
unfolding tok at find_class is_type_name parse_base_type sizeof_member ◌>>=◌
sizeof_operand f asg kw = do
  t ← get (tok 0)
  builtin ← get (is_type_name t)
  k ← get (find_class t.text)
  dotted ← get (at dot 1)
  let typed : M Expr = do ty ← parse_base_type; give (sizeof_type kw.loc ty)
  let inner : M Expr = do e ← asg; give (sizeof_expr kw.loc e)
  on_option k (if builtin then typed else inner)
      (λ c. if dotted then (do ty ← sizeof_member f kw c; give (sizeof_type kw.loc ty)) else typed)

-- `parseSizeof`
unfoldable pub parse_sizeof : ℕ → M Expr → M Expr
unfolding take expect sizeof_operand ◌>>=◌
parse_sizeof f asg = do
  kw ← take
  expect l_paren
  e ← sizeof_operand f asg kw
  expect r_paren
  give e

-- `parseOffset`
unfoldable pub parse_offset : M Expr
unfolding take expect tok find_class error_here ◌>>=◌
parse_offset = do
  kw ← take
  expect l_paren
  t ← get (tok 0)
  let named : M Expr = do
    c ← take
    k ← get (find_class c.text)
    expect dot
    u ← get (tok 0)
    let with_member : M Expr = do m ← take; give (offset_of kw.loc c.text m.text k)
    if u.kind =tok Tok.ident
        then with_member
        else (do error_here offset_member; give (offset_of kw.loc c.text [] k))
  let unnamed : M Expr = do error_here offset_class; give (offset_of kw.loc [] [] none)
  e ← if t.kind =tok Tok.ident then named else unnamed
  expect r_paren
  give e

-- the case of an identifier in `parsePrimary`
unfoldable pub parse_name : ℕ → M Expr → Token → M Expr
unfolding bytes_eq take parse_sizeof parse_offset ◌>>=◌
parse_name f asg t =
    if bytes_eq t.text (codes "sizeof")
    then parse_sizeof f asg
    else if bytes_eq t.text (codes "offset")
    then parse_offset
    else if bytes_eq t.text (codes "lastclass")
    then (do _ ← take; give (last_class t.loc))
    else (do _ ← take; give (Ast.ident t.loc t.text))

-- the case of a punctuator in `parsePrimary`
unfoldable pub parse_symbol : M Expr → Token → M Expr
unfolding take expect error is parse_init_list ◌>>=◌
parse_symbol asg t =
    let grouped : M Expr = (do _ ← take; e ← asg; expect r_paren; give e) in
    let here : M Expr = (do
      _ ← take
      error t.loc dollar_unsupported
      give (Ast.int_lit t.loc (pos 0))) in
    let missing : M Expr = do
      error t.loc expected_expression
      _ ← take
      give (Ast.int_lit t.loc (pos 0))
    in if is l_paren t
      then grouped
      else if is l_brace t
      then parse_init_list asg
      else if is dollar t
      then here
      else missing

-- `parsePrimary`
unfoldable pub parse_primary_at : ℕ → M Expr → Tok → Token → M Expr
unfolding take error take_strings parse_name parse_symbol ◌>>=◌
parse_primary_at f asg Tok.int_lit t = do _ ← take; give (Ast.int_lit t.loc t.ival)
parse_primary_at f asg Tok.float_lit t = do _ ← take; give (Ast.float_lit t.loc t.fval)
parse_primary_at f asg Tok.char_lit t = do
  _ ← take
  give (Ast.char_lit t.loc t.ival (length t.text))
parse_primary_at f asg Tok.str_lit t = do
  _ ← take
  s ← take_strings t.text
  give (Ast.str_lit t.loc s)
parse_primary_at f asg Tok.ident t = parse_name f asg t
parse_primary_at f asg Tok.punct t = parse_symbol asg t
parse_primary_at f asg Tok.eof t = do
  error t.loc expected_expression
  give (Ast.int_lit t.loc (pos 0))

unfoldable pub parse_primary : ℕ → M Expr → M Expr
unfolding tok parse_primary_at ◌>>=◌
parse_primary f asg = do t ← get (tok 0); parse_primary_at f asg t.kind t

abbrev pub assignments : List Punct
assignments =
    assign ∷ plus_eq ∷ minus_eq ∷ star_eq ∷ slash_eq ∷ percent_eq ∷ shl_eq ∷ shr_eq ∷ amp_eq
    ∷ pipe_eq ∷ caret_eq ∷ []

-- What `parseAssign` does behind its left operand.
unfoldable pub assign_tail : M Expr → Expr → M Expr
unfolding take accept tok is error_here ◌>>=◌
assign_tail asg lhs = do
  t ← get (tok 0)
  let assigned : M Expr = do op ← take; rhs ← asg; give (Ast.assign op.loc op.punct lhs rhs)
  let refused : M Expr = do
    error_here no_question_colon
    _ ← take
    _ ← asg
    other ← accept colon
    if other then (do _ ← asg; give lhs) else give lhs
  if one_of assignments t then assigned else if is question t then refused else give lhs

-- `parseAssign`, which is `parseExpr` too
unfoldable pub parse_assign : ℕ → M Expr
unfolding parse_lor parse_unary parse_postfix parse_primary assign_tail ◌>>=◌
parse_assign zero = no_fuel
parse_assign (suc f) = do
  let asg = parse_assign f
  let prefixed = parse_unary (parse_postfix (parse_primary (suc f) asg) asg)
  lhs ← parse_lor prefixed
  assign_tail asg lhs
