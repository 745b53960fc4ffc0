-- ===== src/Codegen/Constant/Casts.antt =====
-- src/codegen.cpp: a cast of a constant to a small integer.
use hlang.Base.{
  ℕ, zero, suc, ◌+◌, ◌-◌, ◌*◌, ◌%◌, ◌^◌, ◌<◌, ◌≡◌, Bool, true, false, not, ◌&&◌, arith,
  if◌then◌else◌, ltb, leb,
}
use hlang.Base.Int.{ℤ, pos, negsuc, signed64, pattern64}
use hlang.Codegen.Constant.{narrow}

-- the values of an integer type of some bytes
abbrev pub is_value : ℕ → Bool → ℤ → Bool
is_value n true (pos k) = ltb k (2 ^ (n * 8))
is_value n true (negsuc k) = false
is_value n false (pos k) = ltb k (2 ^ (n * 8 - 1))
is_value n false (negsuc k) = ltb k (2 ^ (n * 8 - 1))

abbrev Narrowed : ℕ → Bool → ℕ → Type 0
Narrowed n u w =
    let z = signed64 (
      if not u && leb (2 ^ (n * 8 - 1)) (w % 2 ^ (n * 8))
      then w % 2 ^ (n * 8) + (2 ^ 64 - 2 ^ (n * 8))
      else w % 2 ^ (n * 8)) in
    (is_value n u z ≡ true) × (pattern64 z % 2 ^ (n * 8) ≡ w % 2 ^ (n * 8))

Narrowed-one : (u : Bool) (w : ℕ) → Narrowed 1 u w
unfolding signed64 pattern64
Narrowed-one true w = ground arith
Narrowed-one false w = ground arith

Narrowed-two : (u : Bool) (w : ℕ) → Narrowed 2 u w
unfolding signed64 pattern64
Narrowed-two true w = ground arith
Narrowed-two false w = ground arith

Narrowed-three : (u : Bool) (w : ℕ) → Narrowed 3 u w
unfolding signed64 pattern64
Narrowed-three true w = ground arith
Narrowed-three false w = ground arith

Narrowed-four : (u : Bool) (w : ℕ) → Narrowed 4 u w
unfolding signed64 pattern64
Narrowed-four true w = ground arith
Narrowed-four false w = ground arith

Narrowed-five : (u : Bool) (w : ℕ) → Narrowed 5 u w
unfolding signed64 pattern64
Narrowed-five true w = ground arith
Narrowed-five false w = ground arith

Narrowed-six : (u : Bool) (w : ℕ) → Narrowed 6 u w
unfolding signed64 pattern64
Narrowed-six true w = ground arith
Narrowed-six false w = ground arith

Narrowed-seven : (u : Bool) (w : ℕ) → Narrowed 7 u w
unfolding signed64 pattern64
Narrowed-seven true w = ground arith
Narrowed-seven false w = ground arith

Narrowed-below_eight : (n : ℕ) (u : Bool) (w : ℕ) → 0 < n → n < 8 → Narrowed n u w
Narrowed-below_eight zero u w p q = absurd (omega (arith, p))
Narrowed-below_eight (suc zero) u w p q = Narrowed-one u w
Narrowed-below_eight (suc (suc zero)) u w p q = Narrowed-two u w
Narrowed-below_eight (suc (suc (suc zero))) u w p q = Narrowed-three u w
Narrowed-below_eight (suc (suc (suc (suc zero)))) u w p q = Narrowed-four u w
Narrowed-below_eight (suc (suc (suc (suc (suc zero))))) u w p q = Narrowed-five u w
Narrowed-below_eight (suc (suc (suc (suc (suc (suc zero)))))) u w p q = Narrowed-six u w
Narrowed-below_eight (suc (suc (suc (suc (suc (suc (suc zero))))))) u w p q = Narrowed-seven u w
Narrowed-below_eight (suc (suc (suc (suc (suc (suc (suc (suc n)))))))) u w p q =
    absurd (omega (arith, q))

-- A cast of a constant to an integer of fewer than eight bytes gives a value of that type, and its low
-- bits are those of the constant.
pub narrow-range :
    (n : ℕ) (is_unsigned : Bool) (x : ℤ)
    → 0 < n
    → n < 8
    → (is_value n is_unsigned (narrow n is_unsigned x) ≡ true)
      × (pattern64 (narrow n is_unsigned x) % 2 ^ (n * 8) ≡ pattern64 x % 2 ^ (n * 8))
unfolding narrow
narrow-range n u x p q = Narrowed-below_eight n u (pattern64 x) p q
