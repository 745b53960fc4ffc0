-- ===== src/Ast/Layout/Packing.antt =====
-- src/parser.cpp: where the members of a class lie.
use hlang.Base.{
  ℕ, ◌+◌, ◌≡◌, refl, ap, ◌∙◌, true, false, List, [], ◌∷◌, ◌++◌, append_assoc, append-nil, Bytes,
  some, arith, Option-cases, inl, inr,
}
use hlang.Base.Int.{pos, add64}
use hlang.Ast.{Ty, ClassInfo, Member, Store, size}
use hlang.Ast.Layout.{Layout, place, place_all, start, base_size, complete_class}

-- The size of a type is a number that fits an `int64_t`.
abbrev pub IsSized : Store → List (Bytes × Ty) → Type 0
IsSized store [] = Unit
IsSized store ((n, t) ∷ ms) = ((sz : ℕ) × (size store t ≡ some (pos sz))) × IsSized store ms

-- The members lie back to back from one offset to another, in their order, with no padding.
abbrev pub IsPacked : Store → ℕ → List (Bytes × Ty) → List Member → ℕ → Type 0
IsPacked store at [] [] end = at ≡ end
IsPacked store at ((n, t) ∷ ms) (m ∷ r) end =
    (sz : ℕ) × (size store t ≡ some (pos sz))
    × (m.name ≡ n)
    × (m.type ≡ t)
    × (m.offset ≡ pos at)
    × IsPacked store (at + sz) ms r end
IsPacked store at _ _ end = ⊥

-- what `place` does to a class whose size so far is its offset
place-class :
    (store : Store) (n : Bytes) (t : Ty) (l l' : Layout) (at sz : ℕ)
    → size store t ≡ some (pos sz)
    → l.offset ≡ pos at
    → l.max_size ≡ pos at
    → place store false (n, t) l ≡ some l'
    → (l'.offset ≡ pos (at + sz))
      × (l'.max_size ≡ pos (at + sz))
      × (l'.members ≡ l.members ++ (record { name = n; type = t; offset = pos at } ∷ []))
unfolding place add64
place-class store n t l l' at sz hs ho hm h = ground arith

-- The layout of a class from `at` on puts its members back to back, and the offset and the size
-- reached are their end.
module _ (store : Store) where
  pub place_all-IsPacked :
      (ms : List (Bytes × Ty)) (l l' : Layout) (at : ℕ)
      → IsSized store ms
      → l.offset ≡ pos at
      → l.max_size ≡ pos at
      → place_all store false ms l ≡ some l'
      → (r : List Member) × (end : ℕ) × (l'.members ≡ l.members ++ r)
        × IsPacked store at ms r end
        × (l'.offset ≡ pos end)
        × (l'.max_size ≡ pos end)
  unfolding place_all
  place_all-IsPacked [] l l' at s ho hm h =
      ([], at, ground (arith, append-nil l.members), refl, ground arith, ground arith)
  place_all-IsPacked ((n, t) ∷ ms) l l' at s ho hm h =
      elim (Option-cases (place store false (n, t) l)) [
        | inl e ↦ absurd (ground (arith, e))
        | inr (m, e) ↦
            let (o, x, mem) = place-class store n t l m at s.0.0 s.0.1 ho hm e in
            let (r, end, all, packed, o', x') =
              place_all-IsPacked ms m l' (at + s.0.0) s.1 o x (rw (e, place_all) at h) in
            (
              record { name = n; type = t; offset = pos at } ∷ r,
              end,
              (all ∙ ap (λ y. y ++ r) mem) ∙ append_assoc l.members _ r,
              (s.0.0, s.0.1, refl, refl, refl, packed),
              o',
              x',
            )
      ]

  -- A class that is no union, whose base ends at `at`, whose new members have sizes in 64 bits and
  -- whose layout does not overflow: the new members are packed from there on, behind those it had,
  -- and its size is their end, with no padding behind.
  pub complete_class-IsPacked :
      (ci ci' : ClassInfo) (ms : List (Bytes × Ty)) (at : ℕ) {dups : List Bytes}
      → IsSized store ms
      → ci.is_union ≡ false
      → base_size store ci.base ≡ pos at
      → complete_class store ci ms ≡ some (ci', dups)
      → (r : List Member) × (end : ℕ) × (ci'.members ≡ ci.members ++ r)
        × IsPacked store at ms r end
        × (ci'.size ≡ pos end)
        × (ci'.complete ≡ true)
  unfolding complete_class
  complete_class-IsPacked ci ci' ms at s u b h =
      elim (Option-cases
        (place_all store ci.is_union ms (start (base_size store ci.base) ci.members))) [
          | inl e ↦ absurd (ground (arith, e))
          | inr (l, e) ↦
              let (r, end, all, packed, o, x) =
                place_all-IsPacked ms (start (base_size store ci.base) ci.members) l at s b b
                  (rw u at e) in
              (r, end, ground (arith, e, all), packed, ground (arith, e, x), ground (arith, e))
        ]
