-- ===== src/Base/Int/Division.antt =====
-- Division of signed integers, as C++ defines it.
use hlang.Base.{
  ℕ, zero, suc, ◌+◌, ◌*◌, ◌/◌, ◌%◌, ◌<◌, ◌≡◌, ◌⊎◌, inl, inr, false, arith, Bool-cases, ltb,
}
use hlang.Base.Int.{ℤ, pos, negsuc, sub_ℕ, ◌+ℤ◌, ◌*ℤ◌, abs_ℤ, eq_ℤ, ltb_ℤ, quot, remainder}

-- Division that truncates towards zero: the remainder is less than the divisor, and on the side of the
-- dividend.
pub record IsQuotient (a b q r : ℤ) : Type 0 where
  pub whole : a ≡ q *ℤ b +ℤ r
  pub less : abs_ℤ r < abs_ℤ b
  pub side : (abs_ℤ r ≡ 0) ⊎ (ltb_ℤ r (pos 0) ≡ ltb_ℤ a (pos 0))

divided : (n m : ℕ) → n ≡ n / suc m * suc m + n % suc m
divided n m = omega (arith)

pos-pos : (n m q r : ℕ) → n ≡ q * suc m + r → pos n ≡ pos q *ℤ pos (suc m) +ℤ pos r
unfolding ◌*ℤ◌ ◌+ℤ◌
pos-pos n m q r h = ground arith

pos-neg : (n m q r : ℕ) → n ≡ q * suc m + r → pos n ≡ sub_ℕ 0 q *ℤ negsuc m +ℤ pos r
unfolding ◌*ℤ◌ ◌+ℤ◌
pos-neg n m q r h = ground arith

neg-pos : (n m q r : ℕ) → suc n ≡ q * suc m + r → negsuc n ≡ sub_ℕ 0 q *ℤ pos (suc m) +ℤ sub_ℕ 0 r
unfolding ◌*ℤ◌ ◌+ℤ◌
neg-pos n m q r h = ground arith

neg-neg : (n m q r : ℕ) → suc n ≡ q * suc m + r → negsuc n ≡ pos q *ℤ negsuc m +ℤ sub_ℕ 0 r
unfolding ◌*ℤ◌ ◌+ℤ◌
neg-neg n m q r h = ground arith

-- what the four signs make of the quotient and the remainder
module _ (n m : ℕ) where
  parts-pos-pos :
      (quot (pos n) (pos (suc m)) ≡ pos (n / suc m))
      × (remainder (pos n) (pos (suc m)) ≡ pos (n % suc m))
  unfolding quot remainder
  parts-pos-pos = ground arith

  parts-pos-neg :
      (quot (pos n) (negsuc m) ≡ sub_ℕ 0 (n / suc m))
      × (remainder (pos n) (negsuc m) ≡ pos (n % suc m))
  unfolding quot remainder
  parts-pos-neg = ground arith

  parts-neg-pos :
      (quot (negsuc n) (pos (suc m)) ≡ sub_ℕ 0 (suc n / suc m))
      × (remainder (negsuc n) (pos (suc m)) ≡ sub_ℕ 0 (suc n % suc m))
  unfolding quot remainder
  parts-neg-pos = ground arith

  parts-neg-neg :
      (quot (negsuc n) (negsuc m) ≡ pos (suc n / suc m))
      × (remainder (negsuc n) (negsuc m) ≡ sub_ℕ 0 (suc n % suc m))
  unfolding quot remainder
  parts-neg-neg = ground arith

minus_side :
    (n r : ℕ) → (abs_ℤ (sub_ℕ 0 r) ≡ 0) ⊎ (ltb_ℤ (sub_ℕ 0 r) (pos 0) ≡ ltb_ℤ (negsuc n) (pos 0))
minus_side n r = elim (Bool-cases (ltb 0 r)) [
  | inl e ↦ inr (ground (arith, e))
  | inr e ↦ inl (ground (arith, e))
]

plus_side : (n r : ℕ) → ltb_ℤ (pos r) (pos 0) ≡ ltb_ℤ (pos n) (pos 0)
plus_side n r = ground arith

minus_less : (r m k : ℕ) → r < suc m → k ≡ suc m → abs_ℤ (sub_ℕ 0 r) < k
minus_less r m k h e = ground arith

-- The quotient and the remainder of C++ are these.
pub quot-IsQuotient : (a b : ℤ) → eq_ℤ b (pos 0) ≡ false → IsQuotient a b (quot a b) (remainder a b)
quot-IsQuotient a (pos zero) h = cc h
quot-IsQuotient (pos n) (pos (suc m)) h =
    let p = parts-pos-pos n m in
    rw (p.0, p.1)
      (record {
        whole = pos-pos n m _ _ (divided n m);
        less = omega arith;
        side = inr (plus_side n (n % suc m));
      })
quot-IsQuotient (pos n) (negsuc m) h =
    let p = parts-pos-neg n m in
    rw (p.0, p.1)
      (record {
        whole = pos-neg n m _ _ (divided n m);
        less = omega arith;
        side = inr (plus_side n (n % suc m));
      })
quot-IsQuotient (negsuc n) (pos (suc m)) h =
    let p = parts-neg-pos n m in
    rw (p.0, p.1)
      (record {
        whole = neg-pos n m _ _ (divided (suc n) m);
        less = minus_less (suc n % suc m) m _ (omega arith) (omega arith);
        side = minus_side n (suc n % suc m);
      })
quot-IsQuotient (negsuc n) (negsuc m) h =
    let p = parts-neg-neg n m in
    rw (p.0, p.1)
      (record {
        whole = neg-neg n m _ _ (divided (suc n) m);
        less = minus_less (suc n % suc m) m _ (omega arith) (omega arith);
        side = minus_side n (suc n % suc m);
      })
