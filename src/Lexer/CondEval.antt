-- ===== src/Lexer/CondEval.antt =====
-- src/lexer.cpp: `struct CondEval`, the constant expressions of #if and #assert. The tokens from
-- `i` on are a list. Where C++ leaves an `int64_t` operation undefined the outcome is `undefined`.
pub mod Meaning
pub mod Places
pub mod Tiers
pub mod SelfReference
pub mod Parenthesised
use hlang.Base.{
  ℕ, zero, suc, ◌-◌, Bool, true, false, not, ◌&&◌, ◌||◌, List, [], ◌∷◌, ◌==◌, if◌then◌else◌, Bytes,
  Option, none, some, codes, bytes_eq, length, is_empty, drop,
}
use hlang.Base.Dict.{Dict, lookup}
use hlang.Base.Int.{
  ℤ, pos, negsuc, ltb_ℤ, eq_ℤ, of_bool, is_true, add64, sub64, mul64, neg64, div64, rem64, shl64,
  shr64, and64, or64, xor64, not64,
}
use hlang.Run.{Run, ok, undefined, out_of_fuel, ◌>>=◌}
use hlang.Token.{
  Token, Punct, is, is_ident, ident, int_lit, char_lit, float_lit, ◌=tok◌, minus, plus, bang, tilde,
  l_paren, r_paren, shl, shr, pow, star, slash, percent, amp, caret, pipe, lt, gt, le, ge, eq_eq,
  ne, and_and, xor_xor, or_or,
}
use hlang.Lexer.CondOps.{Apply, tiers}

-- the value, the tokens that are left, and `err`
pub record Value : Type 0 where
  pub value : ℤ
  pub rest : List Token
  pub err : Bool

-- A member of `CondEval`, from the tokens at hand and `err`.
abbrev pub Eval : Type 0
Eval = List Token → Bool → Run Value

abbrev pub give : ℤ → Eval
give v ts e = ok (record { value = v; rest = ts; err = e })

abbrev pub defined_or : Option ℤ → Eval
defined_or o ts e = elim o [ none ↦ undefined | some v ↦ give v ts e ]

-- `eatP`, by what comes behind the token
abbrev pub is_next : Punct → List Token → Bool
is_next p [] = false
is_next p (t ∷ ts) = is p t

-- the tests of `primary` for a value that the token holds, and `tokIsInt`
abbrev pub is_int : Token → Bool
is_int t = t.kind =tok int_lit || t.kind =tok char_lit

-- a name behind `defined`, with a parenthesis if one was eaten
abbrev has : Dict (List Token) → Token → ℤ
has macros t = elim (lookup t.text macros) [ none ↦ pos 0 | some b ↦ pos 1 ]

defined_name : Dict (List Token) → Bool → Eval
unfolding lookup is
defined_name macros paren [] e = give (pos 0) [] true
defined_name macros paren (t ∷ ts) e =
    let closed =
      if is_next r_paren ts
      then give (has macros t) (drop 1 ts) e
      else give (has macros t) ts true in
    if t.kind =tok ident
    then (if paren then closed else give (has macros t) ts e)
    else give (pos 0) (t ∷ ts) true

-- An identifier: a macro that is one integer, else the expression that its body is (with an `err` of
-- its own that is dropped), else 0.
abbrev pub macro_value : (Eval) → List Token → Eval
macro_value expr [] ts e = give (pos 0) ts e
macro_value expr (t ∷ []) ts e =
    let sub = expr (t ∷ []) false >>= λ r. give r.value ts e in
    if is_int t then give t.ival ts e else sub
macro_value expr (t ∷ u ∷ us) ts e = expr (t ∷ u ∷ us) false >>= λ r. give r.value ts e

name_value : Dict (List Token) → Eval → Bytes → Eval
unfolding lookup
name_value macros expr name ts e = elim (lookup name macros) [
  | none ↦ give (pos 0) ts e
  | some body ↦ macro_value expr body ts e
]

-- behind the expression in parentheses
abbrev pub close_paren : Value → Run Value
close_paren r =
    if is_next r_paren r.rest then give r.value (drop 1 r.rest) r.err else give r.value r.rest true

-- `primary`, with the call of `expr`
unfoldable pub primary : (Bytes → Option ℤ) → Dict (List Token) → Eval → Eval
unfolding defined_name name_value is is_ident
primary float_int macros expr [] e = give (pos 0) [] true
primary float_int macros expr (t ∷ ts) e =
    let paren = is_next l_paren ts in
    let name = defined_name macros paren (if paren then drop 1 ts else ts) e in
    let inner = expr ts e >>= close_paren in
    if is_int t
    then give t.ival ts e
    else if t.kind =tok float_lit
    then defined_or (float_int t.fval) ts e
    else if is_ident (codes "defined") t
    then name
    else if t.kind =tok ident
    then name_value macros expr t.text ts e
    else if is l_paren t
    then inner
    else give (pos 0) (t ∷ ts) true

-- `unary`, with `primary`
unfoldable pub unary : Eval → Eval
unfolding is
unary prim [] e = prim [] e
unary prim (t ∷ ts) e =
    let negated = unary prim ts e >>= λ r. defined_or (neg64 r.value) r.rest r.err in
    let same = unary prim ts e in
    let flipped = unary prim ts e >>= λ r. give (of_bool (not (is_true r.value))) r.rest r.err in
    let inverted = unary prim ts e >>= λ r. give (not64 r.value) r.rest r.err in
    if is minus t
    then negated
    else if is plus t
    then same
    else if is bang t
    then flipped
    else if is tilde t
    then inverted
    else prim (t ∷ ts) e

-- The loop that each tier is: `for (;;) if (eatP(op)) v = v op sub(); else return v;`. A round takes
-- a token, so the tokens at hand are enough fuel, and none is left where it runs out.
unfoldable pub tier_loop : ℕ → (Token → Option Apply) → Eval → ℤ → Eval
tier_loop n ops sub v [] e = give v [] e
tier_loop zero ops sub v (t ∷ ts) e = give v (t ∷ ts) e
tier_loop (suc n) ops sub v (t ∷ ts) e = elim (ops t) [
  | none ↦ give v (t ∷ ts) e
  | some f ↦ sub ts e >>= λ r. f v r.value >>= λ w. tier_loop n ops sub w.0 r.rest (r.err || w.1)
]

unfoldable pub tier : (Token → Option Apply) → Eval → Eval
unfolding tier_loop
tier ops sub ts e = sub ts e >>= λ r. tier_loop (length r.rest) ops sub r.value r.rest r.err

-- each tier over the one before it
unfoldable pub stacked : List (Token → Option Apply) → Eval → Eval
unfolding tier
stacked [] sub = sub
stacked (ops ∷ more) sub = stacked more (tier ops sub)

module _ (float_int : Bytes → Option ℤ) (macros : Dict (List Token)) where
  -- `expr`: a unit of fuel for each parenthesis and each macro that it enters.
  unfoldable pub expr : ℕ → Eval
  unfolding stacked tiers unary primary
  expr zero ts e = out_of_fuel
  expr (suc f) ts e = stacked tiers (unary (primary float_int macros (expr f))) ts e

  -- The call of `expr` in `evalCondExpr`, with whether the expression is reported as bad.
  unfoldable pub run : ℕ → List Token → Run (ℤ × Bool)
  unfolding expr
  run f ts = expr f ts false >>= λ r. ok (r.value, r.err || not (is_empty r.rest))
