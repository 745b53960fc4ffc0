-- ===== src/Parser/Precedence/Climbing.antt =====
-- src/parser.cpp: the levels of operators, one above the other.
use hlang.Base.{
  ℕ, zero, suc, ◌≤◌, ◌<◌, ◌≡◌, refl, true, false, List, [], ◌∷◌, arith, length, if◌then◌else◌, ◌==◌,
  Bool-cases, inl, inr,
}
use mathlib.Core.Path.{subst}
use hlang.Run.{ok}
use hlang.Token.{Token, Punct, is}
use hlang.Ast.{Expr}
use hlang.Parser.{Parser, M, tok}
use hlang.Parser.Levels.{one_of, binary_rounds, binary_loop, relations, parse_rel}
use hlang.Parser.Precedence.{ops, quiet, quiet_at}

module _ (sub : M Expr) where
  -- the level above `k`
  abbrev pub step : ℕ → M Expr
  step k = if k == 6 then parse_rel sub else binary_loop sub (ops k)

  pub binary_rounds-stops :
      (n : ℕ) (qs : List Punct) (e : Expr) (q : Parser)
      → one_of qs (tok 0 q) ≡ false
      → binary_rounds n sub qs e q ≡ ok (e, q)
  unfolding binary_rounds
  binary_rounds-stops zero qs e q h = refl
  binary_rounds-stops (suc n) qs e q h = rw h refl

  binary_loop-stops :
      (qs : List Punct) (e : Expr) (o q : Parser)
      → sub o ≡ ok (e, q)
      → one_of qs (tok 0 q) ≡ false
      → binary_loop sub qs o ≡ ok (e, q)
  unfolding binary_loop
  binary_loop-stops qs e o q s h = rw s (binary_rounds-stops (length q.toks) qs e q h)

  parse_rel-stops :
      (e : Expr) (o q : Parser)
      → sub o ≡ ok (e, q)
      → one_of relations (tok 0 q) ≡ false
      → parse_rel sub o ≡ ok (e, q)
  unfolding parse_rel
  parse_rel-stops e o q s h = rw (s, h) refl

  pub step-stops :
      (k : ℕ) (e : Expr) (o q : Parser)
      → sub o ≡ ok (e, q)
      → one_of (ops k) (tok 0 q) ≡ false
      → step k o ≡ ok (e, q)
  step-stops k e o q s h = elim (Bool-cases (k == 6)) [
    | inl x ↦
        let six : k ≡ 6 = ground (arith, x) in
        let h' = subst (λ (j : ℕ). one_of (ops j) (tok 0 q) ≡ false) six h in
        rw x (parse_rel-stops e o q s h')
    | inr x ↦ rw x (binary_loop-stops (ops k) e o q s h)
  ]

-- the levels up to `k` over the operands
abbrev pub reader : M Expr → ℕ → M Expr
reader operand zero = operand
reader operand (suc k) = step (reader operand k) k

one_of-end : (qs : List Punct) (p : Parser) → one_of qs (tok 0 (record p { toks = [] })) ≡ false
unfolding tok is
one_of-end [] p = refl
one_of-end (q ∷ qs) p = one_of-end qs p

-- a quiet token is no operator of a level below
pub quiet-one_of : (j k : ℕ) (t : Token) → j < k → quiet k t ≡ true → one_of (ops j) t ≡ false
unfolding quiet
quiet-one_of j zero t lt h = absurd (omega (arith, lt))
quiet-one_of j (suc k) t lt h = elim (Bool-cases (j == k)) [
  | inl x ↦
      let e : k ≡ j = ground (arith, x) in
      let h' : one_of (ops k) t ≡ false = ground (arith, h) in
      subst (λ (i : ℕ). one_of (ops i) t ≡ false) e h'
  | inr x ↦ let less : j < k = ground (arith, x, lt) in quiet-one_of j k t less (ground (arith, h))
]

pub quiet-le : (j k : ℕ) (t : Token) → j ≤ k → quiet k t ≡ true → quiet j t ≡ true
unfolding quiet
quiet-le j zero t le h = let e : zero ≡ j = omega (arith, le) in subst (λ i. quiet i t ≡ true) e h
quiet-le j (suc k) t le h = elim (Bool-cases (j == suc k)) [
  | inl x ↦ let e : suc k ≡ j = ground (arith, x) in subst (λ i. quiet i t ≡ true) e h
  | inr x ↦ let less : j ≤ k = ground (arith, x, le) in quiet-le j k t less (ground (arith, h))
]

module _ (p : Parser) where
  -- the tokens at hand
  abbrev pub front : List Token → Parser
  front ts = record p { toks = ts }

  pub quiet_at-one_of :
      (j k : ℕ) (ts : List Token)
      → j < k
      → quiet_at k ts ≡ true
      → one_of (ops j) (tok 0 (front ts)) ≡ false
  unfolding quiet_at tok
  quiet_at-one_of j k [] lt h = one_of-end (ops j) p
  quiet_at-one_of j k (t ∷ ts) lt h = quiet-one_of j k t lt h

  pub quiet_at-le :
      (j k : ℕ) (ts : List Token) → j ≤ k → quiet_at k ts ≡ true → quiet_at j ts ≡ true
  unfolding quiet_at
  quiet_at-le j k [] le h = refl
  quiet_at-le j k (t ∷ ts) le h = quiet-le j k t le h

  -- what one level reads, those above pass on
  pub reader-climbs :
      (operand : M Expr) (j k : ℕ) (e : Expr) (us ts : List Token)
      → j ≤ k
      → quiet_at k ts ≡ true
      → reader operand j (front us) ≡ ok (e, front ts)
      → reader operand k (front us) ≡ ok (e, front ts)
  reader-climbs operand j zero e us ts le h r =
      let same : j ≡ zero = omega (arith, le) in
      subst (λ i. reader operand i (front us) ≡ ok (e, front ts)) same r
  reader-climbs operand j (suc k) e us ts le h r = elim (Bool-cases (j == suc k)) [
    | inl x ↦
        let same : j ≡ suc k = ground (arith, x) in
        subst (λ i. reader operand i (front us) ≡ ok (e, front ts)) same r
    | inr x ↦
        let less : j ≤ k = ground (arith, x, le) in
        let lower =
          reader-climbs operand j k e us ts less (quiet_at-le k (suc k) ts (omega arith) h) r in
        step-stops (reader operand k) k e (front us) (front ts) lower
          (quiet_at-one_of k (suc k) ts (omega arith) h)
  ]
