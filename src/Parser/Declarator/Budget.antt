-- ===== src/Parser/Declarator/Budget.antt =====
-- src/parser.cpp: declarators and parameters take no more tokens than there are, and end.
use hlang.Base.{
  ℕ, zero, suc, ◌≤◌, ◌<◌, refl, Bool, true, false, List, [], ◌∷◌, Bytes, Option, none, some, arith,
  length, if-elim,
}
use hlang.Base.Int.{ℤ, eq_ℤ, pos}
use hlang.Run.{Run, ok, undefined, out_of_fuel, ◌>>=◌}
use hlang.Token.{Token, Punct, SrcLoc, minus, plus, star, slash, percent, shr, pow}
use hlang.Ast.{Ty, Params, Expr, Store, int_lit, float_lit, char_lit, sizeof_type, unary, binary}
use hlang.Ast.Statement.{Declarator}
use hlang.Parser.{Parser, M, parse_base_type, parse_base_type_no_stars}
use hlang.Parser.Constant.{Constant, defined, unary_value, binary_value, combine, eval_const}
use hlang.Parser.Budget.{
  Ends, Within, Within-le, Within-tokens, bind-behind, bind-eats_first, take-eats, within_rules,
}
use hlang.Parser.Sound.{there, Sound}
use hlang.Parser.Expression.Budget.{take_stars-Within}
use hlang.Parser.Skip.{skip_to_paren_end}
use hlang.Parser.Skip.Budget.{skip_to_paren_end-Within}
use hlang.Parser.Declarator.{
  prefix_rounds, const_value, dimension, dim_rounds, with_init, function_pointer, variable,
  parse_declarator, parameter, with_default, param_rounds, parse_params,
}

-- A run that needs no fuel.
abbrev Settles : Run Constant → Type 0
Settles (ok c) = Unit
Settles undefined = Unit
Settles out_of_fuel = ⊥

defined-Settles : (o : Option ℤ) (x : Bool) → Settles (defined o x)
defined-Settles none x = tt
defined-Settles (some v) x = tt

unary_value-Settles : (q : Punct) (c : Constant) → Settles (unary_value q c)
unfolding unary_value
unary_value-Settles minus c = defined-Settles _ c.1
unary_value-Settles _ c = tt

binary_value-Settles : (q : Punct) (a b : ℤ) → Settles (binary_value q a b)
unfolding binary_value
binary_value-Settles plus a b = defined-Settles _ true
binary_value-Settles minus a b = defined-Settles _ true
binary_value-Settles star a b = defined-Settles _ true
binary_value-Settles slash a b =
    if-elim Settles (eq_ℤ b (pos 0)) _ _ (λ h. tt) (λ h. defined-Settles _ true)
binary_value-Settles percent a b =
    if-elim Settles (eq_ℤ b (pos 0)) _ _ (λ h. tt) (λ h. defined-Settles _ true)
binary_value-Settles shr a b = defined-Settles _ true
binary_value-Settles pow a b = defined-Settles _ true
binary_value-Settles _ a b = tt

bind-Settles :
    (r : Run Constant) (f : Constant → Run Constant)
    → Settles r
    → ((c : Constant) → Settles (f c))
    → Settles (r >>= f)
bind-Settles (ok c) f x k = k c
bind-Settles undefined f x k = tt
bind-Settles out_of_fuel f x k = x

combine-Settles : (q : Punct) (a b : Constant) → Settles (combine q a b)
unfolding combine
combine-Settles q (a, true) (b, true) = binary_value-Settles q a b
combine-Settles q (a, true) (b, false) = tt
combine-Settles q (a, false) (b, y) = tt

eval_const-Settles :
    (float_int : Bytes → Option ℤ) (store : Store) (e : Expr)
    → Settles (eval_const float_int store e)
unfolding eval_const
eval_const-Settles g st (int_lit l v) = tt
eval_const-Settles g st (char_lit l v n) = tt
eval_const-Settles g st (float_lit l t) = defined-Settles _ true
eval_const-Settles g st (sizeof_type l ty) = defined-Settles _ true
eval_const-Settles g st (unary l q x a) =
    bind-Settles _ _ (eval_const-Settles g st a) (unary_value-Settles q)
eval_const-Settles g st (binary l q a b) =
    bind-Settles _ _ (eval_const-Settles g st a)
      λ x. bind-Settles _ _ (eval_const-Settles g st b) λ y. combine-Settles q x y
eval_const-Settles g st _ = tt

const-Ends :
    {st : Parser} {p : Parser} (r : Run Constant)
    → Settles r
    → Sound st p
    → Ends st true 0 (length p.toks) (r >>= λ c. ok (c, p))
const-Ends (ok c) x s = (omega arith, s)
const-Ends undefined x s = refl
const-Ends out_of_fuel x s = absurd x

module _ {st : Parser} {b : ℕ} where
  prefix_rounds-Within :
      (n : ℕ) (ty : Ty) (d : Declarator) → Within st true 0 b (prefix_rounds n ty d)
  unfolding prefix_rounds
  prefix_rounds-Within zero ty d = search within_rules
  prefix_rounds-Within (suc n) ty d =
      let ih = λ (ty' : Ty) (d' : Declarator). prefix_rounds-Within n ty' d' in
      search (ih, within_rules) depth 20 fits 20000

module _ {st : Parser} {b : ℕ} (float_int : Bytes → Option ℤ) (asg : M Expr)
    (s : Within st true 0 b asg) where
  const_value-Within : (e : Expr) → Within st true 0 b (const_value float_int asg e)
  unfolding const_value
  const_value-Within e = record {
    at = λ p x l. const-Ends _ (eval_const-Settles float_int p.store e) x;
  }

  dimension-Within : (l : SrcLoc) → Within st true 0 b (dimension float_int asg l)
  unfolding dimension
  dimension-Within l = search (const_value-Within, within_rules) depth 10

  dim_rounds-Within :
      (n : ℕ) (x : Bool) (l : SrcLoc) (ty : Ty)
      → Within st true 0 b (dim_rounds float_int asg n x l ty)
  unfolding dim_rounds
  dim_rounds-Within zero x l ty = search within_rules
  dim_rounds-Within (suc n) x l ty =
      let ih = λ (ty' : Ty). dim_rounds-Within n x l ty' in
      search (ih, dimension-Within, within_rules) depth 14 fits 20000

  with_init-Within : (x : Bool) (d : Declarator) → Within st true 0 b (with_init float_int asg x d)
  unfolding with_init
  with_init-Within x d = search within_rules depth 10

  variable-Within :
      (x y : Bool) (ty : Ty) (d : Declarator) → Within st true 0 b (variable float_int asg x y ty d)
  unfolding variable
  variable-Within x y ty d = search (dim_rounds-Within, with_init-Within, within_rules) depth 12

  with_default-Within :
      (n : Bytes) (ty : Ty) (l : SrcLoc) → Within st true 0 b (with_default float_int asg n ty l)
  unfolding with_default
  with_default-Within n ty l = search within_rules depth 12

module _ {st : Parser} {b : ℕ} (float_int : Bytes → Option ℤ) (asg : M Expr)
    (s : Within st true 0 b asg) (params : M (Params × Bool)) (h : Within st true 0 b params) where
  function_pointer-Within :
      (x : Bool) (ty : Ty) (d : Declarator)
      → Within st true 0 b (function_pointer float_int asg params x ty d)
  unfolding function_pointer
  function_pointer-Within x ty d =
      search (with_init-Within float_int asg s, within_rules) depth 20 fits 20000

  pub parse_declarator-Within :
      (ty : Ty) (x y : Bool) → Within st true 0 b (parse_declarator float_int asg params ty x y)
  unfolding parse_declarator
  parse_declarator-Within ty x y =
      search
        (
          prefix_rounds-Within,
          function_pointer-Within,
          variable-Within float_int asg s,
          within_rules,
        )
        depth 14

  parameter-Within : (ty : Ty) → Within st true 0 b (parameter float_int asg params ty)
  unfolding parameter
  parameter-Within ty = search (parse_declarator-Within, within_rules) depth 10

module _ {st : Parser} {u : Bool} {b : ℕ} where
  pub parse_base_type_no_stars-eats : Within st u 1 b parse_base_type_no_stars
  unfolding parse_base_type_no_stars
  parse_base_type_no_stars-eats = search (bind-eats_first, take-eats, within_rules) depth 10

  pub parse_base_type-eats : Within st u 1 b parse_base_type
  unfolding parse_base_type
  parse_base_type-eats =
      bind-eats_first _ _ parse_base_type_no_stars-eats λ ty. take_stars-Within ty

-- with no token left the loop ends at once
param_rounds-Ends_empty :
    {st : Parser} (float_int : Bytes → Option ℤ) (asg : M Expr) (params : M (Params × Bool))
    (p : Parser) (ts : List Token)
    → length ts ≤ 0
    → Sound st (record p { toks = ts })
    → Ends st true 0 (length ts) (param_rounds float_int asg 1 params (record p { toks = ts }))
unfolding param_rounds skip_to_paren_end
param_rounds-Ends_empty g asg params p [] h s =
    (omega arith, record { store = s.store; classes = s.classes; log = there s.log; tokens = refl })
param_rounds-Ends_empty g asg params p (t ∷ ts) h s = absurd (omega (arith, h))

module _ {st : Parser} (float_int : Bytes → Option ℤ) (asg : M Expr) where
  param_rounds-Within :
      (n : ℕ) (params : M (Params × Bool))
      → Within st true 0 n asg
      → ((m : ℕ) → m < n → Within st true 0 m params)
      → Within st true 0 n (param_rounds float_int asg (suc n) params)
  unfolding param_rounds
  param_rounds-Within zero params s h = record {
    at = λ p x l. param_rounds-Ends_empty float_int asg params p p.toks l x;
  }
  param_rounds-Within (suc n) params s h =
      let asg-Within : Within st true 0 n asg = Within-le (omega arith) s in
      let ih : Within st true 0 n (param_rounds float_int asg (suc n) params) =
        param_rounds-Within n params asg-Within (λ m l. h m (omega (arith, l))) in
      let one : (ty : Ty) → Within st true 0 n (parameter float_int asg params ty) =
        parameter-Within float_int asg asg-Within params (h n (omega arith)) in
      search
        (
          bind-behind,
          parse_base_type-eats,
          with_default-Within float_int asg asg-Within,
          skip_to_paren_end-Within,
          within_rules,
        )
        depth 24 fits 20000

  pub parse_params-Within :
      (f b : ℕ) → Within st true 0 b asg → b < f → Within st true 0 b (parse_params float_int asg f)
  unfolding parse_params
  parse_params-Within zero b s lt = absurd (omega (arith, lt))
  parse_params-Within (suc f) b s lt =
      let rounds = λ (n : ℕ) (le : n ≤ b). param_rounds-Within n _ (Within-le le s) (λ m l.
        parse_params-Within f m (Within-le (omega (arith, l, le)) s) (omega (arith, l, le, lt))) in
      search (Within-tokens, rounds, within_rules) depth 12
