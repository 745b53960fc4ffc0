-- ===== src/Parser/Declarator.antt =====
-- src/parser.cpp: declarators and parameters.
pub mod Budget
use hlang.Base.{
  ℕ, zero, suc, Bool, true, false, not, ◌&&◌, ◌||◌, List, [], ◌∷◌, if◌then◌else◌, Bytes, Option,
  none, some, codes,
}
use hlang.Base.Int.{ℤ, pos, ltb_ℤ}
use hlang.Run
use hlang.Run.{Run, ok, out_of_fuel}
use hlang.Token.{
  Token, SrcLoc, star, l_paren, r_paren, l_bracket, r_bracket, comma, assign, ellipsis,
}
use hlang.Ast.{
  Ty, ptr, array, func, Params, no_params, param, param_default, param_last_class, Expr,
}
use hlang.Ast.Statement.{Declarator}
use hlang.Parser.{
  Parser, M, ◌>>=◌, ◌>>◌, give, get, no_fuel, tok, at, at_word, at_ident, take, accept, expect,
  error, error_here, is_type_name, parse_base_type, function_pointer_name, array_dimension,
  parameter_type,
}
use hlang.Parser.Constant.{Constant, eval_const}
use hlang.Parser.Levels.{tokens_left}
use hlang.Parser.Skip.{skip_to_paren_end}

-- the location of a token that is not there
abbrev nowhere : SrcLoc
nowhere = record { file = []; line = 0; col = 0 }

abbrev no_declarator : Declarator
no_declarator = record {
  name = [];
  type = none;
  init = none;
  noreg = false;
  is_reg = false;
  reg_name = [];
  loc = nowhere;
}

-- The loop over `*`, `reg` and `noreg`: a round that goes on takes a token.
unfoldable pub prefix_rounds : ℕ → Ty → Declarator → M (Ty × Declarator)
unfolding take at at_word at_ident ◌>>=◌
prefix_rounds zero ty d = give (ty, d)
prefix_rounds (suc n) ty d = do
  let starred : M (Ty × Declarator) = (do _ ← take; prefix_rounds n (ptr ty) d)
  let in_register : M (Ty × Declarator) = do
    _ ← take
    named ← get (λ p. at_ident 0 p && at_ident 1 p)
    let with_name : M (Ty × Declarator) = do
      r ← take
      prefix_rounds n ty (record d { is_reg = true; reg_name = r.text })
    if named then with_name else prefix_rounds n ty (record d { is_reg = true })
  let unregistered : M (Ty × Declarator) = do
    _ ← take
    prefix_rounds n ty (record d { noreg = true })
  is_star ← get (at star 0)
  is_reg ← get (at_word (codes "reg") 0)
  is_noreg ← get (at_word (codes "noreg") 0)
  if is_star
      then starred
      else if is_reg
      then in_register
      else if is_noreg
      then unregistered
      else give (ty, d)

-- an array of arrays, the first dimension outermost
unfoldable pub with_dims : Ty → List ℤ → Ty
with_dims ty [] = ty
with_dims ty (n ∷ ns) = array (with_dims ty ns) n

module _ (float_int : Bytes → Option ℤ) (asg : M Expr) where
  -- `evalConstI64` over the classes of the parser
  unfoldable pub const_value : Expr → M Constant
  unfolding eval_const
  const_value e p = Run.◌>>=◌ (eval_const float_int p.store e) λ c. ok (c, p)

  -- a dimension that is no constant, or negative, counts as 1
  unfoldable pub dimension : SrcLoc → M ℤ
  unfolding const_value error ◌>>=◌
  dimension l = do
    e ← asg
    (n, fine) ← const_value e
    if not fine || ltb_ℤ n (pos 0) then (do error l array_dimension; give (pos 1)) else give n

  -- The loop over the dimensions, with the type that `[]` of a parameter changes.
  unfoldable pub dim_rounds : ℕ → Bool → SrcLoc → Ty → M (Ty × List ℤ)
  unfolding accept at take dimension expect ◌>>=◌
  dim_rounds zero is_param l ty = give (ty, [])
  dim_rounds (suc n) is_param l ty = do
    let decayed : M (Ty × List ℤ) = (do _ ← take; dim_rounds n is_param l (ptr ty))
    let sized : M (Ty × List ℤ) = do
      d ← dimension l
      expect r_bracket
      (ty', ds) ← dim_rounds n is_param l ty
      give (ty', d ∷ ds)
    opened ← accept l_bracket
    closed ← get (at r_bracket 0)
    if opened then (if closed && is_param then decayed else sized) else give (ty, [])

  -- the initializer, if there may be one
  unfoldable pub with_init : Bool → Declarator → M (Bool × Declarator)
  unfolding accept ◌>>=◌
  with_init allow_init d = do
    let written : M (Bool × Declarator) = do
      given ← accept assign
      if given then (do e ← asg; give (true, record d { init = some e })) else give (true, d)
    if allow_init then written else give (true, d)

  -- a pointer to a function
  unfoldable pub function_pointer :
      M (Params × Bool) → Bool → Ty → Declarator → M (Bool × Declarator)
  unfolding take at_ident expect error_here with_init ◌>>=◌
  function_pointer params allow_init ty d = do
    _ ← take
    _ ← take
    named ← get (at_ident 0)
    let parsed : M (Bool × Declarator) = do
      name ← take
      expect r_paren
      expect l_paren
      (ps, variadic) ← params
      with_init allow_init
          (record d { name = name.text; loc = name.loc; type = some (ptr (func ty ps variadic)) })
    if named then parsed else (do error_here function_pointer_name; give (false, d))

  -- a name with its dimensions
  unfoldable pub variable : Bool → Bool → Ty → Declarator → M (Bool × Declarator)
  unfolding take dim_rounds with_dims with_init ◌>>=◌
  variable allow_init is_param ty d = do
    name ← take
    n ← get tokens_left
    (ty', ds) ← dim_rounds n is_param name.loc ty
    with_init allow_init
        (record d { name = name.text; loc = name.loc; type = some (with_dims ty' ds) })

  -- `parseDeclarator`, with `parseParams`
  unfoldable pub parse_declarator : M (Params × Bool) → Ty → Bool → Bool → M (Bool × Declarator)
  unfolding prefix_rounds at at_ident function_pointer variable ◌>>=◌
  parse_declarator params base allow_init is_param = do
    n ← get tokens_left
    (ty, d) ← prefix_rounds n base no_declarator
    pointer ← get (λ p. at l_paren 0 p && at star 1 p)
    named ← get (at_ident 0)
    if pointer
        then function_pointer params allow_init ty d
        else if named
        then variable allow_init is_param ty d
        else give (is_param, if is_param then record d { type = some ty } else d)

  -- the name and the type of a parameter
  unfoldable pub parameter : M (Params × Bool) → Ty → M (Bytes × Ty)
  unfolding at at_ident parse_declarator ◌>>=◌
  parameter params base = do
    let declared : M (Bytes × Ty) = do
      (_, d) ← parse_declarator params base false true
      give (d.name, elim d.type [ none ↦ base | some ty ↦ ty ])
    written ← get (λ p. at_ident 0 p || at l_paren 0 p)
    if written then declared else give ([], base)

  -- a parameter with its default, before the others
  unfoldable pub with_default : Bytes → Ty → SrcLoc → M (Params → Params)
  unfolding accept at_word take ◌>>=◌
  with_default name ty l = do
    given ← accept assign
    last ← get (at_word (codes "lastclass") 0)
    if given
        then (if last
            then (do _ ← take; give (param_last_class name ty l))
            else (do e ← asg; give (param_default name ty e l)))
        else give (param name ty l)

  -- The loop of `parseParams`: a round that goes on takes a comma.
  unfoldable pub param_rounds : ℕ → M (Params × Bool) → M (Params × Bool)
  unfolding accept tok is_type_name parse_base_type parameter with_default expect error_here
      skip_to_paren_end ◌>>=◌
  param_rounds zero params = no_fuel
  param_rounds (suc n) params = do
    let one : M (Params × Bool) = do
      base ← parse_base_type
      t ← get (tok 0)
      (name, ty) ← parameter params base
      add ← with_default name ty t.loc
      let rest : M (Params × Bool) = do (ps, v) ← param_rounds n params; give (add ps, v)
      again ← accept comma
      if again then rest else (do expect r_paren; give (add no_params, false))
    let refused : M (Params × Bool) = do
      error_here parameter_type
      skip_to_paren_end
      give (no_params, false)
    dots ← accept ellipsis
    typed ← get (λ p. is_type_name (tok 0 p) p)
    if dots then (do expect r_paren; give (no_params, true)) else if typed then one else refused

  -- `parseParams`: a unit of fuel for each list of parameters within another
  unfoldable pub parse_params : ℕ → M (Params × Bool)
  unfolding accept param_rounds ◌>>=◌
  parse_params zero = no_fuel
  parse_params (suc f) = do
    let params = parse_params f
    empty ← accept r_paren
    n ← get tokens_left
    if empty then give (no_params, false) else param_rounds (suc n) params
