-- ===== src/Runtime/Arithmetic/Powers.antt =====
-- runtime/hcrt.c: `HC_PowI64` is the power, where it is defined.
use native.Mathlib.Nat.{pow-zero, pow-suc}
use mathlib.Core.Path.{subst}
use hlang.Base.{
  ℕ, zero, suc, ◌+◌, ◌*◌, ◌/◌, ◌%◌, ◌^◌, ◌<◌, ◌≡◌, ◌≢◌, refl, ap, sym, ◌∙◌, Bool, true, false,
  Option, none, some, arith, if◌then◌else◌, ◌==◌, Bool-cases, if-elim, ==_iff, inl, inr,
}
use hlang.Base.Int.{ℤ, pos, mul64, checked, fits64, ◌*ℤ◌}
use hlang.Run.{Run, ok, out_of_fuel}
use hlang.Runtime.Arithmetic.{pow_step, pow_loop, pow_i64}

mul64-pos : (a b : ℕ) (z : ℤ) → mul64 (pos a) (pos b) ≡ some z → z ≡ pos (a * b)
unfolding mul64 checked fits64 ◌*ℤ◌
mul64-pos a b z h = ground (arith, h)

mul_regroup : (x b : ℕ) → x * (b * b) ≡ x * b * b
mul_regroup x b = grind arith

mul_exchange : (r b x : ℕ) → r * b * x ≡ r * (x * b)
mul_exchange r b x = grind arith

halved : (b e : ℕ) → (b * b) ^ e ≡ b ^ (e + e)
halved b zero = pow-zero (b * b) ∙ sym (pow-zero b)
halved b (suc e) =
    let k : suc e + suc e ≡ suc (suc (e + e)) = omega arith in
    pow-suc (b * b) e
    ∙ ap (λ x. x * (b * b)) (halved b e)
    ∙ mul_regroup (b ^ (e + e)) b
    ∙ sym (ap (λ x. b ^ x) k ∙ pow-suc b (suc (e + e)) ∙ ap (λ x. x * b) (pow-suc b (e + e)))

-- a round for an even and for an odd exponent
even_power : (r b e : ℕ) → (e % 2 == 1) ≡ false → r * (b * b) ^ (e / 2) ≡ r * b ^ e
even_power r b e h =
    let e' : e / 2 + e / 2 ≡ e = ground (arith, h) in
    ap (λ x. r * x) (halved b (e / 2) ∙ ap (λ k. b ^ k) e')

odd_power : (r b e : ℕ) → (e % 2 == 1) ≡ true → r * b * (b * b) ^ (e / 2) ≡ r * b ^ e
odd_power r b e h =
    let e' : suc (e / 2 + e / 2) ≡ e = ground (arith, h) in
    ap (λ x. r * b * x) (halved b (e / 2)) ∙ step ∙ ap (λ k. r * b ^ k) e'
  where
    step : r * b * b ^ (e / 2 + e / 2) ≡ r * b ^ suc (e / 2 + e / 2)
    step =
        let x = b ^ (e / 2 + e / 2) in
        mul_exchange r b x ∙ ap (λ y. r * y) (sym (pow-suc b (e / 2 + e / 2)))

pow_loop-end :
    (n : ℕ) (base : ℤ) (e : ℕ) (r : ℤ) → (e == 0) ≡ true → pow_loop (suc n) base e r ≡ ok r
unfolding pow_loop
pow_loop-end n base e r h = rw h refl

pow_loop-empty : (base : ℤ) (e : ℕ) (r z : ℤ) → pow_loop 0 base e r ≢ ok z
unfolding pow_loop
pow_loop-empty base e r z h = cc h

ok_injective : {a b : ℤ} → ◌≡◌ {A = Run ℤ} (ok a) (ok b) → a ≡ b
ok_injective h = cc h

no_power : (r b e : ℕ) → e ≡ 0 → r ≡ r * b ^ e
no_power r b e h = sym (ap (λ k. r * b ^ k) h ∙ ap (λ x. r * x) (pow-zero b) ∙ one)
  where
    one : r * 1 ≡ r
    one = omega arith

pow_loop-step :
    (n : ℕ) (base : ℤ) (e : ℕ) (r : ℤ)
    → (e == 0) ≡ false
    → pow_loop (suc n) base e r
      ≡ pow_step
          (if e % 2 == 1 then mul64 r base else some r)
          (mul64 base base)
          λ s b. pow_loop n b (e / 2) s
unfolding pow_loop
pow_loop-step n base e r h = rw h refl

pow_step-ok :
    (m q : Option ℤ) (next : ℤ → ℤ → Run ℤ) (z : ℤ)
    → pow_step m q next ≡ ok z
    → (s : ℤ) × (c : ℤ) × (m ≡ some s) × (q ≡ some c) × (next s c ≡ ok z)
pow_step-ok none q next z h = absurd (cc h)
pow_step-ok (some s) none next z h = absurd (cc h)
pow_step-ok (some s) (some c) next z h = (s, c, refl, refl, h)

-- what the round multiplies, of natural numbers
multiplied-pos :
    (odd : Bool) (r b : ℕ) (s : ℤ)
    → (if odd then mul64 (pos r) (pos b) else some (pos r)) ≡ some s
    → s ≡ pos (if odd then r * b else r)
multiplied-pos true r b s h = mul64-pos r b s h
multiplied-pos false r b s h = cc h

round_power : (r b e : ℕ) → (if e % 2 == 1 then r * b else r) * (b * b) ^ (e / 2) ≡ r * b ^ e
round_power r b e =
    if-elim (λ x. x * (b * b) ^ (e / 2) ≡ r * b ^ e) (e % 2 == 1) _ _ (odd_power r b e)
      (even_power r b e)

pow_loop-value : (n b e r : ℕ) (z : ℤ) → pow_loop n (pos b) e (pos r) ≡ ok z → z ≡ pos (r * b ^ e)
pow_loop-value zero b e r z h = absurd (pow_loop-empty (pos b) e (pos r) z h)
pow_loop-value (suc n) b e r z h = elim (Bool-cases (e == 0)) [
  | inl d ↦
      let z≡r : z ≡ pos r = ok_injective (sym h ∙ pow_loop-end n (pos b) e (pos r) d) in
      z≡r ∙ ap pos (no_power r b e ((==_iff e 0).0 d))
  | inr d ↦
      let (s, c, p, q, k) = pow_step-ok _ _ _ z (sym (pow_loop-step n (pos b) e (pos r) d) ∙ h) in
      let r' = if e % 2 == 1 then r * b else r in
      pow_loop-value n (b * b) (e / 2) r' z (
        subst (λ x. pow_loop n x (e / 2) (pos r') ≡ ok z) (mul64-pos b b c q)
          (subst (λ x. pow_loop n c (e / 2) x ≡ ok z) (multiplied-pos (e % 2 == 1) r b s p) k))
      ∙ ap pos (round_power r b e)
]

-- Where `HC_PowI64` of a natural base and exponent is defined, it is the power.
pub pow_i64-power : (b e : ℕ) (z : ℤ) → pow_i64 (pos b) (pos e) ≡ ok z → z ≡ pos (b ^ e)
unfolding pow_i64
pow_i64-power b e z h = pow_loop-value 64 b e 1 z h ∙ ap pos one
  where
    one : 1 * b ^ e ≡ b ^ e
    one = omega arith

pow_step-ends :
    (m q : Option ℤ) (next : ℤ → ℤ → Run ℤ)
    → ((s c : ℤ) → next s c ≢ out_of_fuel)
    → pow_step m q next ≢ out_of_fuel
pow_step-ends none q next h = λ e. cc e
pow_step-ends (some s) none next h = λ e. cc e
pow_step-ends (some s) (some c) next h = h s c

ok_ends : (r : ℤ) → ◌≢◌ {A = Run ℤ} (ok r) out_of_fuel
ok_ends r y = cc y

pow_loop-ends :
    (n : ℕ) (base : ℤ) (e : ℕ) (r : ℤ) → e < 2 ^ n → pow_loop (suc n) base e r ≢ out_of_fuel
pow_loop-ends zero base e r h x =
    let d : (e == 0) ≡ true = ground (arith, h) in ok_ends r (sym (pow_loop-end 0 base e r d) ∙ x)
pow_loop-ends (suc n) base e r h x = elim (Bool-cases (e == 0)) [
  | inl d ↦ ok_ends r (sym (pow_loop-end (suc n) base e r d) ∙ x)
  | inr d ↦
      pow_step-ends (if e % 2 == 1 then mul64 r base else some r) (mul64 base base) _
        (λ s c. pow_loop-ends n c (e / 2) s (omega (arith, h)))
        (sym (pow_loop-step (suc n) base e r d) ∙ x)
]

-- `HC_PowI64` comes to an end for every exponent that is an `int64_t`.
pub pow_i64-ends : (base : ℤ) (e : ℕ) → e < 2 ^ 63 → pow_i64 base (pos e) ≢ out_of_fuel
unfolding pow_i64
pow_i64-ends base e h = pow_loop-ends 63 base e (pos 1) h
