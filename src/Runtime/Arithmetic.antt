-- ===== src/Runtime/Arithmetic.antt =====
-- runtime/hcrt.c: the arithmetic of `int64_t`. An overflow is undefined.
pub mod Powers
use hlang.Base.{
  ℕ, zero, suc, ◌*◌, ◌/◌, ◌%◌, Bool, true, false, Option, none, some, if◌then◌else◌, ◌==◌, ltb, leb,
}
use hlang.Base.Int.{ℤ, pos, negsuc, ltb_ℤ, mul64, neg64}
use hlang.Run.{Run, ok, undefined, out_of_fuel}

-- a round of the loop of `HC_PowI64`, with the results of its multiplications
abbrev pow_step : Option ℤ → Option ℤ → (ℤ → ℤ → Run ℤ) → Run ℤ
pow_step none squared next = undefined
pow_step (some r) none next = undefined
pow_step (some r) (some base) next = next r base

-- the loop, over fuel: the base is squared in each round, also in the last
unfoldable pub pow_loop : ℕ → ℤ → ℕ → ℤ → Run ℤ
unfolding mul64
pow_loop zero base e r = out_of_fuel
pow_loop (suc n) base e r =
    let multiplied = if e % 2 == 1 then mul64 r base else some r in
    let rest = pow_step multiplied (mul64 base base) λ s b. pow_loop n b (e / 2) s in
    if e == 0 then ok r else rest

-- `HC_PowI64`: an exponent has up to 63 bits
unfoldable pub pow_i64 : ℤ → ℤ → Run ℤ
unfolding pow_loop
pow_i64 base (pos e) = pow_loop 64 base e (pos 1)
pow_i64 base (negsuc e) = ok (pos 0)

-- `HC_MinI64`, `HC_MaxI64` and `HC_SignI64`
unfoldable pub min_i64 : ℤ → ℤ → ℤ
min_i64 a b = if ltb_ℤ a b then a else b

unfoldable pub max_i64 : ℤ → ℤ → ℤ
max_i64 a b = if ltb_ℤ b a then a else b

unfoldable pub sign_i64 : ℤ → ℤ
sign_i64 x = if ltb_ℤ x (pos 0) then negsuc 0 else if ltb_ℤ (pos 0) x then pos 1 else pos 0

-- `HC_AbsI64` and `HC_SqrI64`
unfoldable pub abs_i64 : ℤ → Option ℤ
unfolding neg64
abs_i64 x = if ltb_ℤ x (pos 0) then neg64 x else some x

unfoldable pub sqr_i64 : ℤ → Option ℤ
unfolding mul64
sqr_i64 x = mul64 x x
