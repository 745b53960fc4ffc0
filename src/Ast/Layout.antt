-- ===== src/Ast/Layout.antt =====
-- src/parser.cpp: the layout of a class in `parseClassDef`, behind the parsing of its members.
pub mod Packing
pub mod Overlay
use hlang.Base.{
  ℕ, Bool, true, false, not, ◌&&◌, ◌||◌, List, [], ◌∷◌, ◌++◌, if◌then◌else◌, Bytes, Option, none,
  some, bytes_eq, codes, some_of, get_elem?,
}
use hlang.Base.Int.{ℤ, pos, ltb_ℤ, add64}
use hlang.Ast.{Ty, class, Member, ClassInfo, Store, size}

-- `offset`, `maxSize`, the members so far, and the duplicates reported
pub record Layout : Type 0 where
  pub offset : ℤ
  pub max_size : ℤ
  pub members : List Member
  pub duplicates : List Bytes

-- a name that may repeat within a class
unfoldable pub may_repeat : Bytes → Bool
unfolding bytes_eq
may_repeat n = bytes_eq n (codes "pad") || bytes_eq n (codes "reserved")

-- The duplicate that a member is, if it is one.
unfoldable pub duplicate : Bytes → List Member → List Bytes
unfolding may_repeat bytes_eq
duplicate n ms = if not (may_repeat n) && some_of (λ m. bytes_eq m.name n) ms then n ∷ [] else []

-- `if (a > b) b = a;`
abbrev larger : ℤ → ℤ → ℤ
larger a b = if ltb_ℤ b a then a else b

abbrev append : Bytes → Ty → ℤ → Layout → Layout
append n t at l = record l {
  members = l.members ++ (record { name = n; type = t; offset = at } ∷ []);
  duplicates = l.duplicates ++ duplicate n l.members;
}

-- A member is placed: none where its size, or the sum of the sizes, overflows.
unfoldable pub place : Store → Bool → Bytes × Ty → Layout → Option Layout
unfolding size add64 duplicate
place store is_union (n, t) l = elim (size store t) [
  | none ↦ none
  | some sz ↦
      if is_union
      then some (append n t (pos 0) (record l { max_size = larger sz l.max_size }))
      else elim (add64 l.offset sz) [
        | none ↦ none
        | some behind ↦ some (
            append n t l.offset (record l { offset = behind; max_size = larger behind l.max_size }))
      ]
]

unfoldable pub place_all : Store → Bool → List (Bytes × Ty) → Layout → Option Layout
unfolding place
place_all store is_union [] l = some l
place_all store is_union (m ∷ ms) l = elim (place store is_union m l) [
  | none ↦ none
  | some l' ↦ place_all store is_union ms l'
]

-- where the members begin: behind the base class
unfoldable pub base_size : Store → Option Ty → ℤ
base_size store (some (class k)) = elim (get_elem? store k) [ none ↦ pos 0 | some ci ↦ ci.size ]
base_size store _ = pos 0

abbrev pub start : ℤ → List Member → Layout
start z ms = record { offset = z; max_size = z; members = ms; duplicates = [] }

-- A class that is given its members, and the duplicates reported.
unfoldable pub complete_class :
    Store → ClassInfo → List (Bytes × Ty) → Option (ClassInfo × List Bytes)
unfolding place_all base_size
complete_class store ci ms =
    elim (place_all store ci.is_union ms (start (base_size store ci.base) ci.members)) [
      | none ↦ none
      | some l ↦
          some (record ci { members = l.members; size = l.max_size; complete = true }, l.duplicates)
    ]
