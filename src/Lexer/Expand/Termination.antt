-- ===== src/Lexer/Expand/Termination.antt =====
-- Macro expansion ends: entering a macro uses up a name of the table.
use hlang.Base.{
  ℕ, zero, suc, ◌+◌, ◌≤◌, ◌<◌, ◌≡◌, refl, Bool, false, ◌||◌, List, [], ◌∷◌, if◌then◌else◌, Bytes,
  bytes_eq, bytes_eq_iff, some, arith, inl, inr, Option-cases, Bool-cases,
}
use hlang.Base.Dict.{Dict, lookup}
use hlang.Run.{Run, ok, ◌>>=◌}
use hlang.Token.{Token}
use hlang.Lexer.{Host}
use hlang.Lexer.Expand.{contains, entered, expand}

-- how many macros are not being expanded
abbrev pub free : Dict (List Token) → List Bytes → ℕ
free [] ex = 0
free ((k, body) ∷ m) ex = (if contains k ex then 0 else 1) + free m ex

contains-cons :
    (n k : Bytes) (ex : List Bytes) → contains n (k ∷ ex) ≡ (bytes_eq k n || contains n ex)
unfolding contains
contains-cons n k ex = refl

free-cons-le : (m : Dict (List Token)) (n : Bytes) (ex : List Bytes) → free m (n ∷ ex) ≤ free m ex
free-cons-le [] n ex = omega arith
free-cons-le ((k, body) ∷ m) n ex = ground (arith, contains-cons k n ex, free-cons-le m n ex)

-- Entering a macro of the table that is not being expanded leaves fewer to enter.
free-cons-lt :
    (m : Dict (List Token)) (n : Bytes) (ex : List Bytes) (body : List Token)
    → lookup n m ≡ some body
    → contains n ex ≡ false
    → free m (n ∷ ex) < free m ex
unfolding lookup
free-cons-lt [] n ex body h c = cc
free-cons-lt ((k, b) ∷ m) n ex body h c = elim (Bool-cases (bytes_eq k n)) [
  | inl same ↦
      let e : k ≡ n = (bytes_eq_iff k n).0 same in
      rw e (ground (arith, contains-cons n n ex, (bytes_eq_iff n n).1 refl, free-cons-le m n ex))
  | inr other ↦
      ground (
        arith,
        contains-cons k n ex,
        free-cons-le m n ex,
        free-cons-lt m n ex body (rw other at h) c,
      )
]

entered-some :
    (m : Dict (List Token)) (ex : List Bytes) (t : Token) (body : List Token)
    → entered m ex t ≡ some body
    → (lookup t.text m ≡ some body) × (contains t.text ex ≡ false)
unfolding entered
entered-some m ex t body h = ground arith

-- What `expand` makes of a token that enters no macro, and of one that enters one.
module _ (h : Host) (jit : Bool) (macros : Dict (List Token)) (use_at : Token) where
  -- an outcome that is a value
  abbrev Ends : Run (List Token) → Type 0
  Ends r = (out : List Token) × (r ≡ ok out)

  Ends-bind :
      (r s : Run (List Token)) (f : List Token → List Token → List Token)
      → Ends r
      → Ends s
      → Ends (r >>= λ a. s >>= λ b. ok (f a b))
  Ends-bind r s f (a, p) (b, q) = (f a b, rw (p, q))

  Ends-map :
      (s : Run (List Token)) (f : List Token → List Token) → Ends s → Ends (s >>= λ b. ok (f b))
  Ends-map s f (b, q) = (f b, rw q)

  -- With fuel for each macro that is not being expanded, the expansion of any body ends, also where
  -- macros name each other or themselves.
  pub expand_total :
      (f : ℕ) (ex : List Bytes) (body : List Token)
      → free macros ex ≤ f
      → (out : List Token) × (expand h jit macros use_at f ex body ≡ ok out)
  unfolding expand
  expand_total zero ex [] le = ([], refl)
  expand_total (suc f) ex [] le = ([], refl)
  expand_total zero ex (t ∷ body) le = elim (Option-cases (entered macros ex t)) [
    | inl e ↦ rw (e, expand) (Ends-map _ _ (expand_total zero ex body le))
    | inr (inner, e) ↦
        let (found, new) = entered-some macros ex t inner e in
        absurd (omega (arith, free-cons-lt macros t.text ex inner found new))
  ]
  expand_total (suc f) ex (t ∷ body) le = elim (Option-cases (entered macros ex t)) [
    | inl e ↦ rw (e, expand) (Ends-map _ _ (expand_total (suc f) ex body le))
    | inr (inner, e) ↦
        let (found, new) = entered-some macros ex t inner e in
        let down = free-cons-lt macros t.text ex inner found new in
        rw (e, expand)
          (Ends-bind _ _ _ (expand_total f (t.text ∷ ex) inner (omega arith))
            (expand_total (suc f) ex body le))
  ]
