-- ===== src/Lexer/Directives.antt =====
-- src/lexer.cpp: `handleDirective` apart from the reading of its line, and `handleExeBlock`.
pub mod Macros
use hlang.Base.{
  ℕ, ◌+◌, Bool, true, false, not, ◌&&◌, ◌||◌, List, [], ◌∷◌, ◌==◌, if◌then◌else◌, Bytes, Option,
  none, some, codes, bytes_eq, length,
}
use hlang.Base.Dict.{lookup, insert, erase}
use hlang.Base.Int.{ℤ, pos, is_true}
use hlang.Run.{Run, ok, ◌>>=◌}
use hlang.Token.{Tok, Token, SrcLoc, is, l_paren, ident, str_lit, ◌=tok◌}
use hlang.Scan.{take_while, is_word}
use hlang.Lexer.{
  Lexer, Host, expects_identifier, else_without_if, duplicate_else, endif_without_if,
  define_identifier, define_function, undef_identifier, cannot_open, include_filename,
  assert_failed, unknown_directive, empty_expression, bad_expression, input, set_input, error,
  error_if, open_include,
}
use hlang.Lexer.Conds.{push_ifdef, push_if, flip_else, pop_cond}
use hlang.Lexer.CondEval
use hlang.Lexer.Blocks.{drop_line, on_exe}

-- the directives, by their names
pub data Directive : Type 0 where
  ifdef ifndef if_value ifaot ifjit else_branch endif : Directive
  define undef include assert help exe unknown : Directive

unfoldable pub directive_of : Bytes → Directive
unfolding bytes_eq
directive_of n =
    if bytes_eq n (codes "ifdef")
    then ifdef
    else if bytes_eq n (codes "ifndef")
    then ifndef
    else if bytes_eq n (codes "if")
    then if_value
    else if bytes_eq n (codes "ifaot")
    then ifaot
    else if bytes_eq n (codes "ifjit")
    then ifjit
    else if bytes_eq n (codes "else")
    then else_branch
    else if bytes_eq n (codes "endif")
    then endif
    else if bytes_eq n (codes "define")
    then define
    else if bytes_eq n (codes "undef")
    then undef
    else if bytes_eq n (codes "include")
    then include
    else if bytes_eq n (codes "assert")
    then assert
    else if bytes_eq n (codes "help_index") || bytes_eq n (codes "help_file")
    then help
    else if bytes_eq n (codes "exe")
    then exe
    else unknown

-- `while (isalnum(peekc()) || peekc() == '_') name.push_back(getc());`
unfoldable pub read_name : Lexer → Bytes × Lexer
unfolding take_while is_word input set_input
read_name lx = let s = input lx in let r = take_while is_word s.0 s.1 in (r.0, set_input r.1 lx)

-- `toks.size() == 1 && toks[0].kind == k`, with the token's text
abbrev pub sole : Tok → List Token → Option Bytes
sole k [] = none
sole k (t ∷ []) = if t.kind =tok k then some t.text else none
sole k (t ∷ u ∷ us) = none

-- `macros_.count(name) != 0`
unfoldable pub is_defined : Bytes → Lexer → Bool
unfolding lookup
is_defined name lx = elim (lookup name lx.macros) [ none ↦ false | some b ↦ true ]

-- #ifdef and #ifndef, `skip` being `skipping` at the directive's name
unfoldable pub on_ifdef : Bool → Bool → SrcLoc → List Token → Lexer → Lexer
unfolding is_defined error_if push_ifdef
on_ifdef negated skip l toks lx =
    let found : Bool = elim (sole ident toks) [ none ↦ false | some name ↦ is_defined name lx ] in
    let bad : Bool = elim (sole ident toks) [ none ↦ not skip | some name ↦ false ] in
    let noted = error_if bad l expects_identifier lx in
    record noted { conds = push_ifdef (if negated then not found else found) noted.conds }

-- `evalCondExpr`
unfoldable pub eval_cond_expr : Host → ℕ → List Token → SrcLoc → Lexer → Run (ℤ × Lexer)
unfolding CondEval.run error error_if
eval_cond_expr h f [] l lx = ok (pos 0, error l empty_expression lx)
eval_cond_expr h f (t ∷ ts) l lx = CondEval.run h.float_int lx.macros f (t ∷ ts) >>= λ r.
    ok (r.0, error_if r.1 l bad_expression lx)

-- #if: the expression is not read in a skipped region
unfoldable pub on_if : Host → ℕ → Bool → SrcLoc → List Token → Lexer → Run Lexer
unfolding eval_cond_expr push_if
on_if h f skip l toks lx =
    let evaluated = eval_cond_expr h f toks l lx >>= λ (v, lx').
    ok (record lx' { conds = push_if (is_true v) lx'.conds }) in
    if skip then ok (record lx { conds = push_if false lx.conds }) else evaluated

-- #ifaot and #ifjit
unfoldable pub on_mode : Bool → Lexer → Lexer
unfolding push_if
on_mode jit lx = record lx {
  conds = push_if (if jit then lx.jit_mode else not lx.jit_mode) lx.conds;
}

-- #else
unfoldable pub on_else : SrcLoc → Lexer → Lexer
unfolding flip_else error error_if
on_else l lx = elim (flip_else lx.conds) [
  | none ↦ error l else_without_if lx
  | some (seen, cs) ↦ record (error_if seen l duplicate_else lx) { conds = cs }
]

-- #endif
unfoldable pub on_endif : SrcLoc → Lexer → Lexer
unfolding pop_cond error
on_endif l lx = elim (pop_cond lx.conds) [
  | none ↦ error l endif_without_if lx
  | some cs ↦ record lx { conds = cs }
]

-- a `(` directly behind the name of a #define
abbrev function_like : Token → List Token → Bool
function_like t [] = false
function_like t (u ∷ us) =
    let a = t.loc in let b = u.loc in is l_paren u && b.col == a.col + length t.text

-- #define
unfoldable pub on_define : SrcLoc → List Token → Lexer → Lexer
unfolding insert error error_if is
on_define l [] lx = error l define_identifier lx
on_define l (t ∷ ts) lx =
    if t.kind =tok ident
    then record (error_if (function_like t ts) l define_function lx) {
      macros = insert t.text ts lx.macros;
    }
    else error l define_identifier lx

-- #undef
unfoldable pub on_undef : SrcLoc → List Token → Lexer → Lexer
unfolding erase error
on_undef l toks lx = elim (sole ident toks) [
  | none ↦ error l undef_identifier lx
  | some name ↦ record lx { macros = erase name lx.macros }
]

-- #include
unfoldable pub on_include : Host → SrcLoc → List Token → Lexer → Lexer
unfolding open_include error
on_include h l toks lx = elim (sole str_lit toks) [
  | none ↦ error l include_filename lx
  | some name ↦ elim (open_include h name lx) [ none ↦ error l cannot_open lx | some lx' ↦ lx' ]
]

-- #assert: a failure is a warning
unfoldable pub on_assert : Host → ℕ → SrcLoc → List Token → Lexer → Run Lexer
unfolding eval_cond_expr
on_assert h f l toks lx = eval_cond_expr h f toks l lx >>= λ (v, lx').
    ok (if is_true v then lx' else record lx' { log = (l, assert_failed) ∷ lx'.log })

-- The directives whose handling begins with `lexLineTokens`.
unfoldable pub reads_line : Bool → Directive → Bool
reads_line skip define = not skip
reads_line skip undef = not skip
reads_line skip include = not skip
reads_line skip assert = not skip
reads_line skip help = false
reads_line skip exe = false
reads_line skip unknown = false
reads_line skip _ = true

-- `handleDirective` behind `lexLineTokens`
unfoldable pub line_directive :
    Host → ℕ → Bool → SrcLoc → Directive → List Token → Lexer → Run Lexer
unfolding on_ifdef on_if on_mode on_else on_endif on_define on_undef on_include on_assert
line_directive h f skip l ifdef toks lx = ok (on_ifdef false skip l toks lx)
line_directive h f skip l ifndef toks lx = ok (on_ifdef true skip l toks lx)
line_directive h f skip l if_value toks lx = on_if h f skip l toks lx
line_directive h f skip l ifaot toks lx = ok (on_mode false lx)
line_directive h f skip l ifjit toks lx = ok (on_mode true lx)
line_directive h f skip l else_branch toks lx = ok (on_else l lx)
line_directive h f skip l endif toks lx = ok (on_endif l lx)
line_directive h f skip l define toks lx = ok (on_define l toks lx)
line_directive h f skip l undef toks lx = ok (on_undef l toks lx)
line_directive h f skip l include toks lx = ok (on_include h l toks lx)
line_directive h f skip l assert toks lx = on_assert h f l toks lx
line_directive h f skip l _ toks lx = ok lx

-- `handleDirective` for the directives that read no tokens
unfoldable pub other_directive : Host → Bool → SrcLoc → Directive → Lexer → Lexer
unfolding drop_line on_exe error
other_directive h skip l exe lx = if skip then drop_line lx else on_exe h lx
other_directive h skip l unknown lx =
    if skip then drop_line lx else drop_line (error l unknown_directive lx)
other_directive h skip l _ lx = drop_line lx
