-- ===== src/Ast/Print.antt =====
-- src/ast.cpp: `Type::str`, how a type is written, and that the parser's table of builtin types takes
-- the names back.
use hlang.Base.{
  ℕ, zero, suc, ◌+◌, ◌*◌, ◌/◌, ◌%◌, ◌≡◌, refl, Bool, true, false, ◌||◌, [], ◌∷◌, ◌++◌, Bytes, none,
  some, codes, arith, if◌then◌else◌, ◌==◌, ltb, get_elem?, Bool-cases, inl, inr, ==_iff, sym,
}
use mathlib.Core.Path.{subst}
use hlang.Base.Int.{ℤ, pos, negsuc}
use hlang.Ast.{Ty, void, int, f64, ptr, array, class, func, Store}
use hlang.Parser.{builtin_type}

-- the decimal digits of a number below 10 ^ 20, over the fuel of 20 digits
unfoldable pub decimal : ℕ → ℕ → Bytes
decimal zero n = []
decimal (suc k) n =
    let more = decimal k (n / 10) in
    if ltb n 10 then (b'0' + n) ∷ [] else more ++ (b'0' + n % 10) ∷ []

-- `std::to_string` of an `int64_t`
unfoldable pub to_string : ℤ → Bytes
unfolding decimal
to_string (pos n) = decimal 20 n
to_string (negsuc n) = b'-' ∷ decimal 20 (suc n)

-- `Type::str`
unfoldable pub str : Store → Ty → Bytes
unfolding to_string
str store void = codes "U0"
str store (int n u) = (if u then b'U' else b'I') ∷ to_string (pos (n * 8))
str store f64 = codes "F64"
str store (ptr t) = str store t ++ codes "*"
str store (array t n) = str store t ++ (codes "[" ++ (to_string n ++ codes "]"))
str store (class k) = elim (get_elem? store k) [ none ↦ codes "<class>" | some ci ↦ ci.name ]
str store (func r ps v) = codes "<fun>"

-- the types that have a name of their own in the language
abbrev pub is_builtin : Ty → Bool
is_builtin void = true
is_builtin (int n u) = n == 1 || (n == 2 || (n == 4 || n == 8))
is_builtin f64 = true
is_builtin _ = false

sizes :
    (P : ℕ → Type 0)
    → P 1
    → P 2
    → P 4
    → P 8
    → (n : ℕ) → (n == 1 || (n == 2 || (n == 4 || n == 8))) ≡ true
    → P n
sizes P a b c d n h = elim (Bool-cases (n == 1)) [
  | inl e ↦ subst P (sym ((==_iff n 1).0 e)) a
  | inr e ↦ elim (Bool-cases (n == 2)) [
    | inl f ↦ subst P (sym ((==_iff n 2).0 f)) b
    | inr f ↦ elim (Bool-cases (n == 4)) [
      | inl g ↦ subst P (sym ((==_iff n 4).0 g)) c
      | inr g ↦ subst P (sym ((==_iff n 8).0 (ground (arith, e, f, g, h)))) d
    ]
  ]
]

-- A builtin type, as it is written, is the name of that type to the parser.
pub builtin_type-str :
    (store : Store) (t : Ty) → is_builtin t ≡ true → builtin_type (str store t) ≡ some t
unfolding str builtin_type
builtin_type-str store void h = refl
builtin_type-str store f64 h = refl
builtin_type-str store (int n true) h =
    sizes (λ k. builtin_type (str store (int k true)) ≡ some (int k true)) refl refl refl refl n h
builtin_type-str store (int n false) h =
    sizes (λ k. builtin_type (str store (int k false)) ≡ some (int k false)) refl refl refl refl n h
builtin_type-str store _ h = absurd (cc h)
