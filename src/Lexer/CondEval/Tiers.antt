-- ===== src/Lexer/CondEval/Tiers.antt =====
-- The tiers of `CondEval` on operands that are followed by a given token.
use hlang.Base.{
  ℕ, zero, suc, ◌≡◌, refl, ap, ◌∙◌, Bool, true, false, ◌||◌, List, [], ◌∷◌, ◌++◌, Option, none,
  some, length,
}
use hlang.Base.Int.{ℤ}
use hlang.Run.{Run, ok, undefined, out_of_fuel, ◌>>=◌}
use hlang.Token.{Token}
use hlang.Lexer.CondEval.{Eval, Value, give, tier_loop, tier, stacked}
use hlang.Lexer.CondOps.{Apply}

-- an outcome of an operand: its value and its error, before the tokens `ts`
abbrev pub Answer : Type 0
Answer = Run (ℤ × Bool)

abbrev pub before : List Token → Bool → ℤ × Bool → Run Value
before ts e a = give a.0 ts (e || a.1)

-- none of the tiers has the token for an operator
abbrev pub AllQuiet : List (Token → Option Apply) → Token → Type 0
AllQuiet [] t = Unit
AllQuiet (ops ∷ more) t = (ops t ≡ none) × AllQuiet more t

tier_loop-quiet :
    (n : ℕ) (ops : Token → Option Apply) (sub : Eval) (v : ℤ) (t : Token) (ts : List Token)
    (e : Bool)
    → ops t ≡ none
    → tier_loop n ops sub v (t ∷ ts) e ≡ give v (t ∷ ts) e
unfolding tier_loop
tier_loop-quiet zero ops sub v t ts e q = refl
tier_loop-quiet (suc n) ops sub v t ts e q = rw (q, tier_loop)

tier-quiet :
    (ops : Token → Option Apply) (sub : Eval) (ts : List Token) (e : Bool) (a : Answer) (t : Token)
    (r : List Token)
    → ops t ≡ none
    → sub ts e ≡ (a >>= before (t ∷ r) e)
    → tier ops sub ts e ≡ (a >>= before (t ∷ r) e)
unfolding tier
tier-quiet ops sub ts e (ok (v, b)) t r q h =
    rw h (tier_loop-quiet (length (t ∷ r)) ops sub v t r (e || b) q)
tier-quiet ops sub ts e undefined t r q h = rw h
tier-quiet ops sub ts e out_of_fuel t r q h = rw h

-- Tiers that are quiet at the token behind an operand hand the operand on.
pub stacked-quiet :
    (list : List (Token → Option Apply)) (sub : Eval) (ts : List Token) (e : Bool) (a : Answer)
    (t : Token) (r : List Token)
    → AllQuiet list t
    → sub ts e ≡ (a >>= before (t ∷ r) e)
    → stacked list sub ts e ≡ (a >>= before (t ∷ r) e)
unfolding stacked
stacked-quiet [] sub ts e a t r q h = h
stacked-quiet (ops ∷ more) sub ts e a t r q h =
    stacked-quiet more (tier ops sub) ts e a t r q.1 (tier-quiet ops sub ts e a t r q.0 h)

pub stacked-append :
    (xs ys : List (Token → Option Apply)) (sub : Eval)
    → stacked (xs ++ ys) sub ≡ stacked ys (stacked xs sub)
unfolding stacked
stacked-append [] ys sub = refl
stacked-append (x ∷ xs) ys sub = stacked-append xs ys (tier x sub)

-- What an operator makes of two answers: the errors are joined.
abbrev pub apply : Apply → Answer → Answer → Answer
apply f a b = a >>= λ x. b >>= λ y. f x.0 y.0 >>= λ w. ok (w.0, (x.1 || y.1) || w.1)

or_regroup : (e x y z : Bool) → (((e || x) || y) || z) ≡ (e || ((x || y) || z))
or_regroup true x y z = refl
or_regroup false x y z = refl

-- the end of the loop, behind the second operand
tier_loop-end :
    (m : Answer) (n : ℕ) (ops : Token → Option Apply) (sub : Eval) (t : Token) (r : List Token)
    (e x y : Bool)
    → ops t ≡ none
    → (m >>= λ w. tier_loop n ops sub w.0 (t ∷ r) (((e || x) || y) || w.1))
      ≡ ((m >>= λ w. ok (w.0, (x || y) || w.1)) >>= before (t ∷ r) e)
tier_loop-end undefined n ops sub t r e x y q = refl
tier_loop-end out_of_fuel n ops sub t r e x y q = refl
tier_loop-end (ok (v, z)) n ops sub t r e x y q =
    tier_loop-quiet n ops sub v t r (((e || x) || y) || z) q
    ∙ ap (give v (t ∷ r)) (or_regroup e x y z)

-- A tier at two operands joined by its operator, before a token that it is quiet at.
pub tier-operator :
    (ops : Token → Option Apply) (f : Apply) (sub : Eval) (ts us : List Token) (e : Bool)
    (a b : Answer) (o t : Token) (r : List Token)
    → ops o ≡ some f
    → ops t ≡ none
    → sub ts e ≡ (a >>= before (o ∷ us) e)
    → ((e' : Bool) → sub us e' ≡ (b >>= before (t ∷ r) e'))
    → tier ops sub ts e ≡ (apply f a b >>= before (t ∷ r) e)
unfolding tier tier_loop
tier-operator ops f sub ts us e undefined b o t r ho ht ha hb = rw ha
tier-operator ops f sub ts us e out_of_fuel b o t r ho ht ha hb = rw ha
tier-operator ops f sub ts us e (ok (v, x)) undefined o t r ho ht ha hb = rw (ha, ho, hb (e || x))
tier-operator ops f sub ts us e (ok (v, x)) out_of_fuel o t r ho ht ha hb = rw (ha, ho, hb (e || x))
tier-operator ops f sub ts us e (ok (v, x)) (ok (w, y)) o t r ho ht ha hb =
    rw (ha, ho, hb (e || x)) (tier_loop-end (f v w) (length us) ops sub t r e x y ht)
