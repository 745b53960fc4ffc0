-- ===== src/Parser/Precedence/Table.antt =====
-- The operators by their levels, and how an operation is written.
use hlang.Base.{
  ℕ, suc, ◌≤◌, ◌≡◌, refl, Bool, true, false, List, ◌∷◌, arith, length, leb, max, ◌==◌, ◌&&◌, not,
  Bool-cases, inl, inr,
}
use hlang.Token.{Token, SrcLoc, is, l_paren, r_paren}
use hlang.Parser.Levels.{one_of}
use hlang.Parser.Precedence.{
  Op, Tree, number, join, punct_of, below, level, ops, sign, write, nesting, quiet, quiet_at, power,
  up_by, down_by, times, over, rest_of, band, bxor, bor, add, sub, same, other, both_of, one_only,
  either,
}

module _ (l : SrcLoc) where
  -- An operator is one of its level and of none below, and its level is none of comparisons.
  abbrev tabled : Op → Bool
  tabled o =
      let t = sign l (punct_of o) in
      one_of (ops (below o)) t && (quiet (below o) t && (leb (level o) 11 && not (below o == 6)))

  Op-tabled : (o : Op) → tabled o ≡ true
  unfolding is quiet
  Op-tabled power = refl
  Op-tabled up_by = refl
  Op-tabled down_by = refl
  Op-tabled times = refl
  Op-tabled over = refl
  Op-tabled rest_of = refl
  Op-tabled band = refl
  Op-tabled bxor = refl
  Op-tabled bor = refl
  Op-tabled add = refl
  Op-tabled sub = refl
  Op-tabled same = refl
  Op-tabled other = refl
  Op-tabled both_of = refl
  Op-tabled one_only = refl
  Op-tabled either = refl

  pub Op-found : (o : Op) → one_of (ops (below o)) (sign l (punct_of o)) ≡ true
  Op-found o = let t = Op-tabled o in ground (arith, t)

  pub Op-quiet : (o : Op) (us : List Token) → quiet_at (below o) (sign l (punct_of o) ∷ us) ≡ true
  unfolding quiet_at
  Op-quiet o us = let t = Op-tabled o in ground (arith, t)

  pub Op-below : (o : Op) → below o ≤ 10
  Op-below o = let t = Op-tabled o in ground (arith, t)

  pub Op-plain : (o : Op) → (below o == 6) ≡ false
  Op-plain o = let t = Op-tabled o in ground (arith, t)

  -- how an operation is written where it needs no parentheses, and where it does
  unfoldable pub bare : Op → Tree → Tree → List Token → List Token
  bare o a b ts = write l (level o) a (sign l (punct_of o) ∷ write l (below o) b ts)

  pub write-bare :
      (k : ℕ) (o : Op) (a b : Tree) (ts : List Token)
      → leb (level o) k ≡ true
      → write l k (join o a b) ts ≡ bare o a b ts
  unfolding write bare
  write-bare k o a b ts h = rw h refl

  pub write-group :
      (k : ℕ) (o : Op) (a b : Tree) (ts : List Token)
      → leb (level o) k ≡ false
      → write l k (join o a b) ts ≡ sign l l_paren ∷ bare o a b (sign l r_paren ∷ ts)
  unfolding write bare
  write-group k o a b ts h = rw h refl

  pub length-write : (k : ℕ) (t : Tree) (ts : List Token) → length ts ≤ length (write l k t ts)
  unfolding write bare
  length-write k (number v) ts = omega arith
  length-write k (join o a b) ts =
      let grows : (us : List Token) → length us ≤ length (bare o a b us) = λ us.
        let left = length-write (level o) a (sign l (punct_of o) ∷ write l (below o) b us) in
        let right = length-write (below o) b us in omega (arith, left, right) in
      elim (Bool-cases (leb (level o) k)) [
        | inl h ↦ rw (write-bare k o a b ts h) (grows ts)
        | inr h ↦
            let e = grows (sign l r_paren ∷ ts) in rw (write-group k o a b ts h) (omega (arith, e))
      ]

pub write-alike :
    (l : SrcLoc) (m : ℕ) (o : Op) (a b : Tree) (ts : List Token)
    → leb (level o) (suc m) ≡ leb (level o) m
    → write l (suc m) (join o a b) ts ≡ write l m (join o a b) ts
unfolding write
write-alike l m o a b ts h = rw h refl

pub nesting-alike :
    (m : ℕ) (o : Op) (a b : Tree)
    → leb (level o) (suc m) ≡ leb (level o) m
    → nesting (suc m) (join o a b) ≡ nesting m (join o a b)
unfolding nesting
nesting-alike m o a b h = rw h refl

unfoldable pub inner : Op → Tree → Tree → ℕ
inner o a b = max (nesting (level o) a) (nesting (below o) b)

pub nesting-bare :
    (k : ℕ) (o : Op) (a b : Tree) → leb (level o) k ≡ true → nesting k (join o a b) ≡ inner o a b
unfolding nesting inner
nesting-bare k o a b h = rw h refl

pub nesting-group :
    (k : ℕ) (o : Op) (a b : Tree)
    → leb (level o) k ≡ false
    → nesting k (join o a b) ≡ suc (inner o a b)
unfolding nesting inner
nesting-group k o a b h = rw h refl
