-- ===== src/Base/Text.antt =====
-- Byte strings: the `std::string` of the source as a list of byte values.
use Prim.Native.Char.{code}
use Prim.Native.Nat.{ℕ}
use Prim.Native.String.{String}
use mathlib.Core.Path.{◌≡◌, refl}
use mathlib.Core.Logic.{◌↔◌}
use mathlib.Core.Bool.{Bool, true, false, ◌&&◌, ◌||◌}
use mathlib.Core.List.{List, [], ◌∷◌}
use native.Mathlib.Omega.{arith}
use hlang.Base.Tests.{◌==◌, leb}

abbrev pub Bytes : Type 0
Bytes = List ℕ

-- The code points of a text: its bytes, if it is ASCII.
abbrev pub codes : String → Bytes
codes String.[] = []
codes (String.◌∷◌ c s) = code c ∷ codes s

-- `a == b` on `std::string`
unfoldable pub bytes_eq : Bytes → Bytes → Bool
bytes_eq [] [] = true
bytes_eq (x ∷ xs) (y ∷ ys) = x == y && bytes_eq xs ys
bytes_eq _ _ = false

pub bytes_eq_iff : (a b : Bytes) → (bytes_eq a b ≡ true) ↔ (a ≡ b)
unfolding bytes_eq
bytes_eq_iff [] [] = ((λ h. refl), λ h. refl)
bytes_eq_iff [] (y ∷ ys) = ((λ h. cc), λ h. cc)
bytes_eq_iff (x ∷ xs) [] = ((λ h. cc), λ h. cc)
bytes_eq_iff (x ∷ xs) (y ∷ ys) = ground (arith, bytes_eq_iff xs ys)

pub bytes_eq_refl : (a : Bytes) → bytes_eq a a ≡ true
bytes_eq_refl a = (bytes_eq_iff a a).1 refl

-- `isdigit`, `isalpha`, `isalnum` and `isxdigit` of the C locale, on a byte
unfoldable pub isdigit : ℕ → Bool
isdigit c = leb b'0' c && leb c b'9'

unfoldable pub isalpha : ℕ → Bool
isalpha c = leb b'a' c && leb c b'z' || leb b'A' c && leb c b'Z'

unfoldable pub isalnum : ℕ → Bool
unfolding isalpha isdigit
isalnum c = isalpha c || isdigit c

unfoldable pub isxdigit : ℕ → Bool
unfolding isdigit
isxdigit c = isdigit c || leb b'a' c && leb c b'f' || leb b'A' c && leb c b'F'
