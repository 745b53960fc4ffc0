-- ===== src/Runtime/Output/Growth.antt =====
-- runtime/hcrt.c: what is written to a buffer fits it, and the buffer is not much larger.
use hlang.Base.{
  ℕ, zero, suc, ◌+◌, ◌*◌, ◌^◌, ◌≤◌, ◌<◌, ◌≡◌, ◌⊎◌, refl, ◌∙◌, false, ◌++◌, Bytes, arith,
  if◌then◌else◌, ◌==◌, ltb, length, length-append, Bool-cases, inl, inr, max,
}
use hlang.Runtime.Output.{HcOut, grow, out_emit}

-- the loop ends with enough, as each round adds at least one
grow-enough : (n need nc : ℕ) → 0 < nc → need ≤ nc + n → need ≤ grow n need nc
unfolding grow
grow-enough zero need nc p h = omega (arith, h)
grow-enough (suc n) need nc p h =
    let ih = grow-enough n need (nc * 2) (omega (arith, p)) (omega (arith, p, h)) in ground arith

-- it doubles only what is not enough
grow-below : (n need nc : ℕ) → grow n need nc ≤ max nc (need * 2)
unfolding grow
grow-below zero need nc = omega arith
grow-below (suc n) need nc = elim (Bool-cases (ltb nc need)) [
  | inl e ↦
      let ih = grow-below n need (nc * 2) in
      let small : nc < need = ground (arith, e) in rw e (omega (arith, ih, small))
  | inr e ↦ rw e (omega arith)
]

grow-doubles : (n need nc : ℕ) → (k : ℕ) × (grow n need nc ≡ nc * 2 ^ k)
unfolding grow
grow-doubles zero need nc = (0, omega arith)
grow-doubles (suc n) need nc =
    let (k, ih) = grow-doubles n need (nc * 2) in
    let again : nc * 2 * 2 ^ k ≡ nc * 2 ^ suc k = grind arith in
    elim (Bool-cases (ltb nc need)) [
      | inl e ↦ (suc k, rw e (ih ∙ again))
      | inr e ↦ (0, rw e (omega arith))
    ]

-- the first capacity, and how one grows to another for a need: doubled some times, from 64 on if there
-- is none, and never to more than 64 or twice the need
abbrev pub first_cap : ℕ → ℕ
first_cap cap = if cap == 0 then 64 else cap

abbrev pub Grown : ℕ → ℕ → ℕ → Type 0
Grown cap need cap' =
    (cap < need) × ((k : ℕ) × (cap' ≡ first_cap cap * 2 ^ k)) × (cap' ≤ max 64 (need * 2))

first_cap-positive : (cap : ℕ) → 0 < first_cap cap
first_cap-positive cap = ground arith

first_cap-le : (cap need : ℕ) → cap < need → first_cap cap ≤ max 64 (need * 2)
first_cap-le cap need h = elim (Bool-cases (cap == 0)) [
  | inl e ↦ rw e (omega arith)
  | inr e ↦ rw e (omega (arith, h))
]

grow-Grown : (cap need : ℕ) → cap < need → Grown cap need (grow need need (first_cap cap))
grow-Grown cap need h =
    let below = grow-below need need (first_cap cap) in
    let first = first_cap-le cap need h in
    (h, grow-doubles need need (first_cap cap), omega (arith, below, first))

-- `out_emit` to a buffer, of any length and capacity, appends the bytes and leaves room for them and a
-- zero byte in the capacity. A capacity that is enough stays; another is doubled some times, from 64
-- on if it is 0, to at most 64 or twice what is needed.
pub out_emit-fits :
    (o : HcOut) (s : Bytes)
    → o.to_stdout ≡ false
    → ((out_emit o s).buf ≡ o.buf ++ s)
      × (length (out_emit o s).buf < (out_emit o s).cap)
      × (((length o.buf + length s + 1 ≤ o.cap) × ((out_emit o s).cap ≡ o.cap))
          ⊎ Grown o.cap (length o.buf + length s + 1) (out_emit o s).cap)
unfolding out_emit
out_emit-fits o s h =
    let need = length o.buf + length s + 1 in
    let enough = grow-enough need need (first_cap o.cap) (first_cap-positive o.cap) (omega arith) in
    let l = length-append o.buf s in
    elim (Bool-cases (ltb o.cap need)) [
      | inl e ↦
          rw (h, e)
            (refl, omega (arith, l, enough), inr (grow-Grown o.cap need (ground (arith, e))))
      | inr e ↦
          let room : need ≤ o.cap = ground (arith, e) in
          rw (h, e) (refl, omega (arith, l, room), inl (room, refl))
    ]
