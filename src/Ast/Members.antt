-- ===== src/Ast/Members.antt =====
-- The search for a member along the chain of base classes ends where the chain does.
use hlang.Base.{
  ℕ, zero, suc, ◌<◌, ◌≡◌, refl, Bytes, Option, none, some, arith, get_elem?, inl, inr, Option-cases,
}
use hlang.Run.{ok, out_of_fuel}
use hlang.Ast.{ClassInfo, Store, Member, own_member, base_class, find_member}

-- The base of each class comes below it in a ranking of the classes.
abbrev pub IsRanked : (ℕ → ℕ) → Store → Type 0
IsRanked rank store =
    (k b : ℕ) (ci : ClassInfo)
    → get_elem? store k ≡ some ci
    → base_class ci.base ≡ some b
    → rank b < rank k

-- With a ranking of the classes in which each base comes below, `findMember` ends with any fuel
-- above the rank of the class: it finds a member or none.
pub find_member_total :
    (rank : ℕ → ℕ) (store : Store) (n : Bytes)
    → IsRanked rank store
    → (f k : ℕ) → rank k < f
    → (m : Option Member) × (find_member f store k n ≡ ok m)
unfolding find_member
find_member_total rank store n r zero k lt = absurd (omega arith)
find_member_total rank store n r (suc f) k lt = elim (Option-cases (get_elem? store k)) [
  | inl e ↦ (none, rw (e, find_member))
  | inr (ci, e) ↦ (elim (Option-cases (own_member n ci.members)) [
    | inr (m, o) ↦ (some m, rw (e, o, find_member))
    | inl o ↦ (elim (Option-cases (base_class ci.base)) [
      | inl b ↦ (none, rw (e, o, b, find_member))
      | inr (b, eb) ↦
          rw (e, o, eb, find_member)
            (find_member_total rank store n r f b (omega (arith, r k b ci e eb)))
    ])
  ])
]

-- In a class that is its own base and does not have the member itself, `findMember` runs out of any
-- fuel: the recursion has no end.
pub find_member-own_base :
    (f k : ℕ) (store : Store) (n : Bytes) (ci : ClassInfo)
    → get_elem? store k ≡ some ci
    → base_class ci.base ≡ some k
    → own_member n ci.members ≡ none
    → find_member f store k n ≡ out_of_fuel
unfolding find_member
find_member-own_base zero k store n ci e b o = refl
find_member-own_base (suc f) k store n ci e b o =
    rw (e, o, b, find_member) (find_member-own_base f k store n ci e b o)
