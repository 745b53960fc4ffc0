-- ===== src/Lexer/CondEval/SelfReference.antt =====
-- A macro whose body begins with its own name, in an expression of #if or #assert.
use hlang.Base.{
  ℕ, zero, suc, Bool, false, List, [], ◌∷◌, ◌≡◌, refl, Bytes, Option, some, arith, codes, bytes_eq,
  sym, ◌∙◌,
}
use mathlib.Core.Path.{subst}
use hlang.Base.Dict.{Dict, lookup}
use hlang.Base.Int.{ℤ}
use hlang.Run.{Run, out_of_fuel}
use hlang.Token.{Token, ident, is, is_ident}
use hlang.Lexer.CondEval.{Eval, primary, macro_value, unary, tier, stacked, expr}
use hlang.Lexer.CondOps.{tiers}

-- A token that names a macro whose body begins with a token of that name; `defined` is no such name.
pub record IsSelfNamed (macros : Dict (List Token)) (n : Token) : Type 0 where
  pub kind : n.kind ≡ ident
  pub plain : bytes_eq n.text (codes "defined") ≡ false
  pub first : Token
  pub others : List Token
  pub body : lookup n.text macros ≡ some (first ∷ others)
  pub first_kind : first.kind ≡ ident
  pub first_text : first.text ≡ n.text

-- The tiers hand on what their operands do not give.
stacked-out_of_fuel :
    (ops : List (Token → Option (ℤ → ℤ → Run (ℤ × Bool)))) (sub : Eval) (ts : List Token) (e : Bool)
    → sub ts e ≡ out_of_fuel
    → stacked ops sub ts e ≡ out_of_fuel
unfolding stacked tier
stacked-out_of_fuel [] sub ts e h = h
stacked-out_of_fuel (o ∷ ops) sub ts e h = stacked-out_of_fuel ops _ ts e (rw h)

unary-ident :
    (prim : Eval) (n : Token) (ts : List Token) (e : Bool)
    → n.kind ≡ ident
    → unary prim (n ∷ ts) e ≡ prim (n ∷ ts) e
unfolding unary is
unary-ident prim n ts e k = rw k

-- the first token of the body is such a token again
step :
    {macros : Dict (List Token)} {n : Token} (s : IsSelfNamed macros n) → IsSelfNamed macros s.first
step {macros} s = record {
  kind = s.first_kind;
  plain = rw s.first_text s.plain;
  first = s.first;
  others = s.others;
  body = subst (λ x. lookup x macros ≡ some (s.first ∷ s.others)) (sym s.first_text) s.body;
  first_kind = s.first_kind;
  first_text = refl;
}

module _ (float_int : Bytes → Option ℤ) (macros : Dict (List Token)) where
  macro_value_self :
      (sub : Eval) (a : Token) (rest : List Token) (ts : List Token) (e : Bool)
      → a.kind ≡ ident
      → sub (a ∷ rest) false ≡ out_of_fuel
      → macro_value sub (a ∷ rest) ts e ≡ out_of_fuel
  macro_value_self sub a [] ts e k h = rw (h, k)
  macro_value_self sub a (b ∷ bs) ts e k h = rw h

  primary_self :
      (sub : Eval) (n : Token) (ts : List Token) (e : Bool) (s : IsSelfNamed macros n)
      → sub (s.first ∷ s.others) false ≡ out_of_fuel
      → primary float_int macros sub (n ∷ ts) e ≡ out_of_fuel
  unfolding primary is_ident
  primary_self sub n ts e s h =
      ground
        (arith, s.kind, s.plain, s.body, macro_value_self sub s.first s.others ts e s.first_kind h)

  -- Whatever the fuel, the evaluation of an expression that begins with the name of a macro, other than
  -- `defined`, whose body begins with that name runs out of it.
  pub expr_self :
      (f : ℕ) (n : Token) (ts : List Token) (e : Bool)
      → IsSelfNamed macros n
      → expr float_int macros f (n ∷ ts) e ≡ out_of_fuel
  unfolding expr
  expr_self zero n ts e s = refl
  expr_self (suc f) n ts e s =
      let prim = primary float_int macros (expr float_int macros f) in
      stacked-out_of_fuel tiers (unary prim) (n ∷ ts) e (
        unary-ident prim n ts e s.kind
        ∙ primary_self (expr float_int macros f) n ts e s
            (expr_self f s.first s.others false (step s)))
