-- ===== src/Parser/TopLevel.antt =====
-- src/parser.cpp: qualifiers, functions, global variables and the loop over a program.
pub mod Budget
use hlang.Base.{
  ℕ, zero, suc, Bool, true, false, not, ◌&&◌, ◌||◌, List, [], ◌∷◌, ◌++◌, if◌then◌else◌, Bytes,
  Option, none, some, codes, bytes_eq,
}
use hlang.Base.Int.{ℤ}
use hlang.Run.{ok, out_of_fuel}
use hlang.Token.{Token, is_ident, semi, star, l_brace, l_paren, comma}
use hlang.Ast.{Ty, ptr, func, Params, Expr}
use hlang.Ast.Statement.{Declarator, Stmt, Stmts}
use hlang.Ast.Program.{
  Linkage, normal, public, external, imported, external_alias, imported_alias, static_linkage,
  FuncDecl, GlobalVar, TopItem, func_item, global_item, stmt_item, class_item,
}
use hlang.Parser.{
  Parser, M, ◌>>=◌, ◌>>◌, give, get, no_fuel, tok, at, at_word, at_ident, at_eof, take, accept,
  expect, error_here, is_type_name, take_stars, parse_base_type_no_stars, alias_symbol,
  expected_declarator, expected_declaration,
}
use hlang.Parser.Levels.{tokens_left}
use hlang.Parser.Skip.{skip_to_semi}
use hlang.Parser.Leaf.{starts_decl}
use hlang.Parser.Control.{block_body}

-- `struct Quals`
pub record Quals : Type 0 where
  pub linkage : Linkage
  pub alias_sym : Bytes
  pub interrupt : Bool
  pub has_err_code : Bool
  pub arg_pop : Bool
  pub no_arg_pop : Bool
  pub any : Bool

abbrev pub no_quals : Quals
no_quals = record {
  linkage = normal;
  alias_sym = [];
  interrupt = false;
  has_err_code = false;
  arg_pop = false;
  no_arg_pop = false;
  any = false;
}

-- What a word does to the qualifiers, with whether a symbol follows; none for any other word:
-- `isQualKw`, and the tests of `parseQuals`.
unfoldable pub qualified : Bytes → Quals → Option (Quals × Bool)
unfolding bytes_eq
qualified w q =
    if bytes_eq w (codes "public")
    then some (record q { any = true; linkage = public }, false)
    else if bytes_eq w (codes "static")
    then some (record q { any = true; linkage = static_linkage }, false)
    else if bytes_eq w (codes "extern")
    then some (record q { any = true; linkage = external }, false)
    else if bytes_eq w (codes "import")
    then some (record q { any = true; linkage = imported }, false)
    else if bytes_eq w (codes "_extern")
    then some (record q { any = true; linkage = external_alias }, true)
    else if bytes_eq w (codes "_import")
    then some (record q { any = true; linkage = imported_alias }, true)
    else if bytes_eq w (codes "interrupt")
    then some (record q { any = true; interrupt = true }, false)
    else if bytes_eq w (codes "haserrcode")
    then some (record q { any = true; has_err_code = true }, false)
    else if bytes_eq w (codes "argpop")
    then some (record q { any = true; arg_pop = true }, false)
    else if bytes_eq w (codes "noargpop")
    then some (record q { any = true; no_arg_pop = true }, false)
    else none

-- The loop of `parseQuals`: a round takes a token.
unfoldable pub qual_rounds : ℕ → Quals → M Quals
unfolding qualified tok at_ident take error_here ◌>>=◌
qual_rounds zero q = give q
qual_rounds (suc n) q = do
  let symbol : Quals → M Quals = λ q'. do
    named ← get (at_ident 0)
    let alias : M Quals = (do t ← take; qual_rounds n (record q' { alias_sym = t.text }))
    if named then alias else (do error_here alias_symbol; qual_rounds n q')
  let next : Quals × Bool → M Quals =
      λ (q', aliased). do _ ← take; if aliased then symbol q' else qual_rounds n q'
  word ← get (at_ident 0)
  t ← get (tok 0)
  if word then elim (qualified t.text q) [ none ↦ give q | some r ↦ next r ] else give q

-- `parseQuals`
unfoldable pub parse_quals : M Quals
unfolding qual_rounds ◌>>=◌
parse_quals = do n ← get tokens_left; qual_rounds n no_quals

-- `addGlobalOrLocalTop`
unfoldable pub global_of : Declarator → Quals → TopItem
global_of d q = global_item (record {
  name = d.name;
  alias_sym = q.alias_sym;
  type = d.type;
  init = d.init;
  linkage = q.linkage;
  loc = d.loc;
})

module _ (params : M (Params × Bool)) (sub : M Stmt) where
  -- `parseFunc`
  unfoldable pub parse_func : Ty → Quals → M TopItem
  unfolding take at block_body expect ◌>>=◌
  parse_func ret q = do
    name ← take
    _ ← take
    (ps, variadic) ← params
    braced ← get (at l_brace 0)
    let with_body : M (Option Stmts) = (do lb ← take; ss ← block_body sub lb.loc; give (some ss))
    body ← if braced then with_body else (do expect semi; give none)
    give (
        func_item (record {
          name = name.text;
          alias_sym = q.alias_sym;
          type = func ret ps variadic;
          linkage = q.linkage;
          interrupt = q.interrupt;
          has_err_code = q.has_err_code;
          arg_pop = q.arg_pop;
          no_arg_pop = q.no_arg_pop;
          body = body;
          loc = name.loc;
        }))

module _ (declarator : Ty → M (Bool × Declarator)) where
  -- The loop over global variables: the stars before the first are taken already. A round takes a
  -- comma.
  unfoldable pub global_rounds : ℕ → Ty → Ty → Quals → M (List TopItem)
  unfolding error_here skip_to_semi accept expect global_of ◌>>=◌
  global_rounds zero first base q = no_fuel
  global_rounds (suc n) first base q = do
    (found, d) ← declarator first
    let rest : M (List TopItem) = do
      items ← global_rounds n base base q
      give (global_of d q ∷ items)
    let one : M (List TopItem) = do
      again ← accept comma
      if again then rest else (do expect semi; give (global_of d q ∷ []))
    if found then one else (do error_here expected_declarator; skip_to_semi; give [])

-- A global variable or a function, at the name of a type.
module _ (params : M (Params × Bool)) (declarator : Ty → M (Bool × Declarator)) (sub : M Stmt) where
  unfoldable pub parse_typed : Quals → M (List TopItem)
  unfolding parse_base_type_no_stars take_stars at at_ident parse_func global_rounds ◌>>=◌
  parse_typed q = do
    base ← parse_base_type_no_stars
    ty ← take_stars base
    is_func ← get (λ p. at_ident 0 p && at l_paren 1 p)
    n ← get tokens_left
    let function : M (List TopItem) = (do f ← parse_func params sub ty q; give (f ∷ []))
    if is_func then function else global_rounds declarator (suc n) ty base q

  -- `parseTopLevel`, with `parseClassDef`
  unfoldable pub parse_top_level : (Quals → M (List TopItem)) → M (List TopItem)
  unfolding accept parse_quals at_word tok is_type_name starts_decl parse_typed error_here
      skip_to_semi ◌>>=◌
  parse_top_level class_def = do
    let item : M (List TopItem) = do
      q ← parse_quals
      typed ← get (λ p. is_type_name (tok 0 p) p)
      here ← get (λ p. at_word (codes "class") 0 p || at_word (codes "union") 0 p)
      next ← get (λ p. at_word (codes "class") 1 p || at_word (codes "union") 1 p)
      declaring ← get starts_decl
      let refused : M (List TopItem) = (do error_here expected_declaration; skip_to_semi; give [])
      let statement : M (List TopItem) = (do s ← sub; give (stmt_item s ∷ []))
      if here || typed && next
          then class_def q
          else if typed && (declaring || q.any)
          then parse_typed q
          else if q.any
          then refused
          else statement
    empty ← accept semi
    if empty then give [] else item

-- The loop of `run`: a round takes a token.
unfoldable pub program_rounds : ℕ → M (List TopItem) → M (List TopItem)
unfolding at_eof ◌>>=◌
program_rounds zero top = no_fuel
program_rounds (suc n) top = do
  let one : M (List TopItem) = do items ← top; more ← program_rounds n top; give (items ++ more)
  ended ← get at_eof
  if ended then give [] else one
