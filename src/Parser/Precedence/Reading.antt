-- ===== src/Parser/Precedence/Reading.antt =====
-- src/parser.cpp: the levels of operators read what is written, given operands that do.
use hlang.Base.{
  ℕ, zero, suc, ◌≤◌, ◌<◌, ◌≡◌, refl, true, false, List, ◌∷◌, arith, length, leb, ◌==◌, Bool-cases,
  inl, inr, sym,
}
use mathlib.Core.Path.{subst}
use hlang.Run.{Run, ok}
use hlang.Token.{Token, Punct, SrcLoc, l_paren, r_paren}
use hlang.Ast.{Expr, binary}
use hlang.Parser.{Parser, M, tok, take}
use hlang.Parser.Levels.{one_of, binary_rounds, binary_loop}
use hlang.Parser.Precedence.{
  Op, Tree, number, join, punct_of, below, level, ops, sign, literal, write, built, nesting,
  quiet_at,
}
use hlang.Parser.Precedence.Climbing.{
  reader, front, quiet_at-le, reader-climbs, binary_rounds-stops, quiet_at-one_of,
}
use hlang.Parser.Precedence.Table.{
  Op-found, Op-quiet, Op-below, Op-plain, bare, write-bare, write-group, length-write, write-alike,
  nesting-alike, inner, nesting-bare, nesting-group,
}

module _ (sub : M Expr) (qs : List Punct) where
  -- the loop of a level behind its first operand
  binary_loop-first :
      (e : Expr) (o q : Parser) (r : Run (Expr × Parser))
      → sub o ≡ ok (e, q)
      → binary_rounds (length q.toks) sub qs e q ≡ r
      → binary_loop sub qs o ≡ r
  unfolding binary_loop
  binary_loop-first e o q r s h = rw s h

  -- a round of it
  binary_rounds-next :
      (n : ℕ) (t : Token) (us : List Token) (e x : Expr) (o q : Parser) (r : Run (Expr × Parser))
      → one_of qs t ≡ true
      → length (t ∷ us) ≤ n
      → sub (record o { toks = us }) ≡ ok (x, q)
      → ((m : ℕ) → length us ≤ m → binary_rounds m sub qs (binary t.loc t.punct e x) q ≡ r)
      → binary_rounds n sub qs e (record o { toks = t ∷ us }) ≡ r
  unfolding binary_rounds take tok
  binary_rounds-next zero t us e x o q r h le s k = absurd (omega (arith, le))
  binary_rounds-next (suc n) t us e x o q r h le s k = rw (h, s) (k n (omega (arith, le)))

module _ (l : SrcLoc) (p : Parser) (operand : M Expr) (f : ℕ)
    (of_number : (v : ℕ) (ts : List Token)
      → quiet_at 0 ts ≡ true
      → operand (front p (literal l v ∷ ts)) ≡ ok (built l (number v), front p ts))
    (of_group : (t : Tree) (ts : List Token)
      → nesting 11 t < f
      → quiet_at 0 ts ≡ true
      → operand (front p (sign l l_paren ∷ write l 11 t (sign l r_paren ∷ ts)))
        ≡ ok (built l t, front p ts)) where
  -- a level reads a tree that is written for it
  abbrev Reads : Tree → Type 0
  Reads t =
      (k : ℕ) (ts : List Token)
      → k ≤ 11
      → nesting k t ≤ f
      → quiet_at k ts ≡ true
      → reader operand k (front p (write l k t ts)) ≡ ok (built l t, front p ts)

  -- the level above goes on behind a tree with its rounds
  abbrev Chains : Tree → ℕ → Type 0
  Chains t m =
      (ts : List Token) (r : Run (Expr × Parser))
      → (m == 6) ≡ false
      → m ≤ 10
      → nesting (suc m) t ≤ f
      → quiet_at m ts ≡ true
      → ((n : ℕ)
          → length ts ≤ n
          → binary_rounds n (reader operand m) (ops m) (built l t) (front p ts) ≡ r)
      → reader operand (suc m) (front p (write l (suc m) t ts)) ≡ r

  -- a tree that is written alike for both levels
  chain-Reads :
      (t : Tree) (m : ℕ)
      → nesting (suc m) t ≡ nesting m t
      → ((ts : List Token) → write l (suc m) t ts ≡ write l m t ts)
      → Reads t
      → Chains t m
  chain-Reads t m e w reads ts r six le nest q h =
      let first : reader operand m (front p (write l m t ts)) ≡ ok (built l t, front p ts) =
        reads m ts (omega (arith, le)) (omega (arith, nest, e)) q in
      rw (w ts, six)
        (binary_loop-first (reader operand m) (ops m) (built l t) _ (front p ts) r first
          (h (length ts) (omega arith)))

  Reads-number : (v : ℕ) → Reads (number v)
  unfolding write nesting
  Reads-number v k ts le nest q =
      reader-climbs p operand 0 k _ _ ts (omega arith) q
        (of_number v ts (quiet_at-le p 0 k ts (omega arith) q))

  module _ (o : Op) (a b : Tree) (ra : Reads a) (ca : (m : ℕ) → Chains a m) (rb : Reads b) where
    -- behind its left operand, an operator and what is right of it
    chain-bare :
        (ts : List Token) (r : Run (Expr × Parser))
        → inner o a b ≤ f
        → quiet_at (below o) ts ≡ true
        → ((n : ℕ)
            → length ts ≤ n
            → binary_rounds n
                (reader operand (below o))
                (ops (below o))
                (built l (join o a b))
                (front p ts)
              ≡ r)
        → reader operand (level o) (front p (bare l o a b ts)) ≡ r
    unfolding bare inner built
    chain-bare ts r nest q h =
        let m = below o in
        let mark = sign l (punct_of o) in
        let us = write l m b ts in
        let le = Op-below l o in
        let right : reader operand m (front p us) ≡ ok (built l b, front p ts) =
          rb m ts (omega (arith, le)) (omega (arith, nest)) q in
        ca m (mark ∷ us) r (Op-plain l o) le (omega (arith, nest)) (Op-quiet l o us) λ n len.
          binary_rounds-next (reader operand m) (ops m) n mark us (built l a) (built l b)
            (front p (mark ∷ us)) (front p ts) r (Op-found l o) len right
            λ i e. let longer = length-write l m b ts in h i (omega (arith, e, longer))

    -- with no parentheses around it
    read-bare :
        (ts : List Token)
        → inner o a b ≤ f
        → quiet_at (level o) ts ≡ true
        → reader operand (level o) (front p (bare l o a b ts))
          ≡ ok (built l (join o a b), front p ts)
    read-bare ts nest q =
        chain-bare ts _ nest (quiet_at-le p (below o) (level o) ts (omega arith) q) λ n len.
          binary_rounds-stops (reader operand (below o)) n (ops (below o)) (built l (join o a b))
            (front p ts) (quiet_at-one_of p (below o) (level o) ts (omega arith) q)

    Reads-join : Reads (join o a b)
    Reads-join k ts le nest q = elim (Bool-cases (leb (level o) k)) [
      | inl h ↦
          let below_k : level o ≤ k = ground (arith, h) in
          let n = nesting-bare k o a b h in
          let r = read-bare ts (omega (arith, nest, n)) (quiet_at-le p (level o) k ts below_k q) in
          rw (write-bare l k o a b ts h) (reader-climbs p operand (level o) k _ _ ts below_k q r)
      | inr h ↦
          let top : leb (level o) 11 ≡ true = (let e = Op-below l o in ground (arith, e)) in
          let n = nesting-group k o a b h in
          let n' = nesting-bare 11 o a b top in
          let w = write-bare l 11 o a b (sign l r_paren ∷ ts) top in
          let g =
            of_group (join o a b) ts (omega (arith, nest, n, n'))
              (quiet_at-le p 0 k ts (omega arith) q) in
          rw (write-group l k o a b ts h)
            (reader-climbs p operand 0 k _ _ ts (omega arith) q (rw (sym w) g))
    ]

    Chains-join : (m : ℕ) → Chains (join o a b) m
    Chains-join m = elim (Bool-cases (below o == m)) [
      | inl e ↦
          let same : below o ≡ m = ground (arith, e) in
          subst (Chains (join o a b)) same λ ts r six le nest q h.
            let top : leb (level o) (level o) ≡ true = ground arith in
            let n = nesting-bare (level o) o a b top in
            rw (write-bare l (level o) o a b ts top) (chain-bare ts r (omega (arith, nest, n)) q h)
      | inr e ↦
          let alike : leb (level o) (suc m) ≡ leb (level o) m = ground (arith, e) in
          chain-Reads (join o a b) m (nesting-alike m o a b alike)
            (λ ts. write-alike l m o a b ts alike) Reads-join
    ]

  -- both, by recursion on the tree
  Reads-Chains : (t : Tree) → Reads t × ((m : ℕ) → Chains t m)
  unfolding write nesting
  Reads-Chains (number v) =
      let reads = Reads-number v in (reads, λ m. chain-Reads (number v) m refl (λ ts. refl) reads)
  Reads-Chains (join o a b) =
      let (ra, ca) = Reads-Chains a in
      let (rb, cb) = Reads-Chains b in (Reads-join o a b ra ca rb, Chains-join o a b ra ca rb)

  pub tree-Reads : (t : Tree) → Reads t
  tree-Reads t = (Reads-Chains t).0
