-- ===== src/Ast/Layout/Overlay.antt =====
-- src/parser.cpp: where the members of a union lie.
use hlang.Base.{
  ℕ, ◌≡◌, refl, ap, ◌∙◌, true, List, [], ◌∷◌, ◌++◌, append_assoc, append-nil, Bytes, some, arith,
  Option-cases, inl, inr, max,
}
use hlang.Base.Int.{pos}
use hlang.Ast.{Ty, ClassInfo, Member, Store, size}
use hlang.Ast.Layout.{Layout, place, place_all, start, base_size, complete_class}
use hlang.Ast.Layout.Packing.{IsSized}

-- The members all lie at offset 0, in their order, and the largest of their sizes and of a size to
-- begin with is reached.
abbrev pub IsOverlaid : Store → ℕ → List (Bytes × Ty) → List Member → ℕ → Type 0
IsOverlaid store at [] [] end = at ≡ end
IsOverlaid store at ((n, t) ∷ ms) (m ∷ r) end =
    (sz : ℕ) × (size store t ≡ some (pos sz))
    × (m.name ≡ n)
    × (m.type ≡ t)
    × (m.offset ≡ pos 0)
    × IsOverlaid store (max at sz) ms r end
IsOverlaid store at _ _ end = ⊥

-- what `place` does to a union
place-union :
    (store : Store) (n : Bytes) (t : Ty) (l l' : Layout) (at sz : ℕ)
    → size store t ≡ some (pos sz)
    → l.max_size ≡ pos at
    → place store true (n, t) l ≡ some l'
    → (l'.max_size ≡ pos (max at sz))
      × (l'.members ≡ l.members ++ (record { name = n; type = t; offset = pos 0 } ∷ []))
unfolding place
place-union store n t l l' at sz hs hm h = ground arith

module _ (store : Store) where
  pub place_all-IsOverlaid :
      (ms : List (Bytes × Ty)) (l l' : Layout) (at : ℕ)
      → IsSized store ms
      → l.max_size ≡ pos at
      → place_all store true ms l ≡ some l'
      → (r : List Member) × (end : ℕ) × (l'.members ≡ l.members ++ r)
        × IsOverlaid store at ms r end
        × (l'.max_size ≡ pos end)
  unfolding place_all
  place_all-IsOverlaid [] l l' at s hm h =
      ([], at, ground (arith, append-nil l.members), refl, ground arith)
  place_all-IsOverlaid ((n, t) ∷ ms) l l' at s hm h =
      elim (Option-cases (place store true (n, t) l)) [
        | inl e ↦ absurd (ground (arith, e))
        | inr (m, e) ↦
            let (x, mem) = place-union store n t l m at s.0.0 s.0.1 hm e in
            let (r, end, all, overlaid, x') =
              place_all-IsOverlaid ms m l' (max at s.0.0) s.1 x (rw (e, place_all) at h) in
            (
              record { name = n; type = t; offset = pos 0 } ∷ r,
              end,
              (all ∙ ap (λ y. y ++ r) mem) ∙ append_assoc l.members _ r,
              (s.0.0, s.0.1, refl, refl, refl, overlaid),
              x',
            )
      ]

  -- A union whose base has the size `at`, whose new members have sizes in 64 bits and which is
  -- completed: the new members lie at offset 0, behind those it had in the list, and its size is the
  -- largest of theirs and the base's.
  pub complete_class-IsOverlaid :
      (ci ci' : ClassInfo) (ms : List (Bytes × Ty)) (at : ℕ) {dups : List Bytes}
      → IsSized store ms
      → ci.is_union ≡ true
      → base_size store ci.base ≡ pos at
      → complete_class store ci ms ≡ some (ci', dups)
      → (r : List Member) × (end : ℕ) × (ci'.members ≡ ci.members ++ r)
        × IsOverlaid store at ms r end
        × (ci'.size ≡ pos end)
        × (ci'.complete ≡ true)
  unfolding complete_class
  complete_class-IsOverlaid ci ci' ms at s u b h =
      elim (Option-cases
        (place_all store ci.is_union ms (start (base_size store ci.base) ci.members))) [
          | inl e ↦ absurd (ground (arith, e))
          | inr (l, e) ↦
              let (r, end, all, overlaid, x) =
                place_all-IsOverlaid ms (start (base_size store ci.base) ci.members) l at s b
                  (rw u at e) in
              (r, end, ground (arith, e, all), overlaid, ground (arith, e, x), ground (arith, e))
        ]
