-- ===== src/Runtime/Bits/Laws.antt =====
-- runtime/hcrt.c: what the changes of a bit do to the bits of the field.
use hlang.Base.{
  ℕ, zero, suc, ◌-◌, ◌*◌, ◌/◌, ◌%◌, ◌<◌, ◌≡◌, refl, Bool, true, false, ◌&&◌, [], ◌∷◌, Bytes, Option,
  none, some, arith, ◌==◌, ltb, length, Bool-cases, inl, inr, ==_iff, ==_refl, if-elim, sym, ap,
  ◌∙◌, if◌then◌else◌, all_of,
}
use mathlib.Core.Path.{subst}
use hlang.Runtime.Bits.{
  modify, byte_at, bit_of, set_bit, reset_bit, complement_bit, bt, changed, bts, btr, btc,
}

-- a test of all the numbers below a bound
abbrev all_below : ℕ → (ℕ → Bool) → Bool
all_below zero f = true
all_below (suc n) f = f n && all_below n f

all_below-lt : (n : ℕ) (f : ℕ → Bool) (k : ℕ) → all_below n f ≡ true → k < n → f k ≡ true
all_below-lt zero f k h lt = absurd (omega (arith, lt))
all_below-lt (suc n) f k h lt = elim (Bool-cases (k == n)) [
  | inl e ↦ rw ((==_iff k n).0 e) (ground (arith, h))
  | inr e ↦ all_below-lt n f k (ground (arith, h)) (ground (arith, e, lt))
]

-- a change of one bit sets it to a value and leaves the others
abbrev at_bit : (ℕ → ℕ → ℕ) → (ℕ → ℕ) → ℕ → ℕ → ℕ → Bool
at_bit f v c i j = bit_of j (f i c) == (if i == j then v (bit_of i c) else bit_of j c)

abbrev at_index : (ℕ → ℕ → ℕ) → (ℕ → ℕ) → ℕ → ℕ → Bool
at_index f v c i = all_below 8 (at_bit f v c i)

abbrev sets_bit : (ℕ → ℕ → ℕ) → (ℕ → ℕ) → Bool
sets_bit f v = all_below 256 λ c. all_below 8 (at_index f v c)

set_table : sets_bit set_bit (λ b. 1) ≡ true
set_table = refl

reset_table : sets_bit reset_bit (λ b. 0) ≡ true
reset_table = refl

complement_table : sets_bit complement_bit (λ b. 1 - b) ≡ true
complement_table = refl

sets :
    (f : ℕ → ℕ → ℕ) (v : ℕ → ℕ) (c i j : ℕ)
    → sets_bit f v ≡ true
    → c < 256
    → i < 8
    → j < 8
    → bit_of j (f i c) ≡ (if i == j then v (bit_of i c) else bit_of j c)
sets f v c i j h hc hi hj =
    let by_index = all_below-lt 256 (λ x. all_below 8 (at_index f v x)) c h hc in
    let by_bit = all_below-lt 8 (at_index f v c) i by_index hi in
    (==_iff (bit_of j (f i c)) _).0 (all_below-lt 8 (at_bit f v c i) j by_bit hj)

-- A change of a byte that is there leaves the others.
modify-byte :
    (f : ℕ → ℕ) (i : ℕ) (cs : Bytes)
    → i < length cs
    → ((c : ℕ) × (after : Bytes) × (byte_at i cs ≡ some c)
        × (modify f i cs ≡ some after)
        × (byte_at i after ≡ some (f c))
        × ((k : ℕ) → (i == k) ≡ false → byte_at k after ≡ byte_at k cs))
unfolding modify byte_at
modify-byte f i [] h = absurd (omega (arith, h))
modify-byte f zero (c ∷ cs) h = (c, f c ∷ cs, refl, refl, refl, same)
  where
    same : (k : ℕ) → (0 == k) ≡ false → byte_at k (f c ∷ cs) ≡ byte_at k (c ∷ cs)
    same zero e = cc e
    same (suc k) e = refl
modify-byte f (suc i) (c ∷ cs) h =
    let (d, after, a, b, x, y) = modify-byte f i cs (omega (arith, h)) in
    (d, c ∷ after, a, rw b refl, x, λ k e. beside k after y e)
  where
    beside :
        (k : ℕ) (after : Bytes)
        → ((l : ℕ) → (i == l) ≡ false → byte_at l after ≡ byte_at l cs)
        → (suc i == k) ≡ false
        → byte_at k (c ∷ after) ≡ byte_at k (c ∷ cs)
    beside zero after y e = refl
    beside (suc k) after y e = y k (ground (arith, e))

byte_at-lt :
    (i : ℕ) (cs : Bytes) (c : ℕ)
    → all_of (λ x. ltb x 256) cs ≡ true
    → byte_at i cs ≡ some c
    → c < 256
unfolding byte_at
byte_at-lt i [] c h e = cc e
byte_at-lt zero (x ∷ cs) c h e = ground (arith, h, e)
byte_at-lt (suc i) (x ∷ cs) c h e = byte_at-lt i cs c (ground (arith, h)) e

-- A change of the bit `n` gives the old bit, and behind it the bit `m` is the new one, if it is the
-- same, or what it was.
abbrev pub Changes : (Bytes → ℕ → Option (ℕ × Bytes)) → (ℕ → ℕ) → Bytes → ℕ → ℕ → Type 0
Changes op v field n m =
    (old : ℕ) × (after : Bytes) × (op field n ≡ some (old, after))
    × (bt field n ≡ some old)
    × (bt after m ≡ (if n == m then some (v old) else bt field m))

same_bit : (n m : ℕ) → (n / 8 == m / 8) ≡ true → (n == m) ≡ (n % 8 == m % 8)
same_bit n m e =
    let q : n / 8 ≡ m / 8 = (==_iff (n / 8) (m / 8)).0 e in
    elim (Bool-cases (n == m)) [
      | inl d ↦ rw ((==_iff n m).0 d) (==_refl m ∙ sym (==_refl (m % 8)))
      | inr d ↦ rw d (sym (other_bit q d))
    ]
  where
    other_bit : n / 8 ≡ m / 8 → (n == m) ≡ false → (n % 8 == m % 8) ≡ false
    other_bit q d = ground arith

other_byte : (n m : ℕ) → (n / 8 == m / 8) ≡ false → (n == m) ≡ false
other_byte n m e = elim (Bool-cases (n == m)) [
  | inl d ↦ cc (e, ==_refl (m / 8), (==_iff n m).0 d)
  | inr d ↦ d
]

bt-byte :
    (field : Bytes) (n c : ℕ)
    → byte_at (n / 8) field ≡ some c
    → bt field n ≡ some (bit_of (n % 8) c)
unfolding bt
bt-byte field n c e = rw (e, bt) refl

changed-byte :
    (f : ℕ → ℕ → ℕ) (field after : Bytes) (n old : ℕ)
    → bt field n ≡ some old
    → modify (f (n % 8)) (n / 8) field ≡ some after
    → changed f field n ≡ some (old, after)
changed-byte f field after n old e k = rw (e, k, changed) refl

bit_behind :
    (f : ℕ → ℕ → ℕ) (v : ℕ → ℕ) (field after : Bytes) (n m c : ℕ)
    → sets_bit f v ≡ true
    → c < 256
    → byte_at (n / 8) field ≡ some c
    → byte_at (n / 8) after ≡ some (f (n % 8) c)
    → ((k : ℕ) → (n / 8 == k) ≡ false → byte_at k after ≡ byte_at k field)
    → bt after m ≡ (if n == m then some (v (bit_of (n % 8) c)) else bt field m)
unfolding bt byte_at
bit_behind f v field after n m c s lt a x y = elim (Bool-cases (n / 8 == m / 8)) [
  | inl e ↦ within e
  | inr e ↦ rw (other_byte n m e) (ap bit_in (y (m / 8) e))
]
  where
    bit_in : Option ℕ → Option ℕ
    bit_in o = elim o [ none ↦ none | some d ↦ some (bit_of (m % 8) d) ]

    within :
        (n / 8 == m / 8) ≡ true
        → bt after m ≡ (if n == m then some (v (bit_of (n % 8) c)) else bt field m)
    within e =
        let q : n / 8 ≡ m / 8 = (==_iff (n / 8) (m / 8)).0 e in
        rw (same_bit n m e) (
          bt-byte after m (f (n % 8) c) (subst (λ k. byte_at k after ≡ some (f (n % 8) c)) q x)
          ∙ ap some (sets f v c (n % 8) (m % 8) s lt (omega arith) (omega arith))
          ∙ if-elim
              (λ b. some (if n % 8 == m % 8 then v (bit_of (n % 8) c) else bit_of (m % 8) c) ≡ b)
              (n % 8 == m % 8) _ _ (λ h. rw h refl)
              (λ h. rw h (sym (bt-byte field m c (subst (λ k. byte_at k field ≡ some c) q a)))))

changed-Changes :
    (f : ℕ → ℕ → ℕ) (v : ℕ → ℕ) (field : Bytes) (n m : ℕ)
    → sets_bit f v ≡ true
    → all_of (λ c. ltb c 256) field ≡ true
    → n < 8 * length field
    → Changes (changed f) v field n m
changed-Changes f v field n m s h lt =
    let (c, after, a, b, x, y) = modify-byte (f (n % 8)) (n / 8) field (omega (arith, lt)) in
    let old = bit_of (n % 8) c in
    let e = bt-byte field n c a in
    (
      old,
      after,
      changed-byte f field after n old e b,
      e,
      bit_behind f v field after n m c s (byte_at-lt (n / 8) field c h a) a x y,
    )

-- `HC_Bts`, `HC_Btr` and `HC_Btc` on a bit of a field of bytes: each gives the bit as it was, and
-- behind it the bit is 1, 0 or the other one, while all the other bits of the field are as before.
pub bits-Changes :
    (field : Bytes) (n m : ℕ)
    → all_of (λ c. ltb c 256) field ≡ true
    → n < 8 * length field
    → Changes bts (λ b. 1) field n m
      × Changes btr (λ b. 0) field n m
      × Changes btc (λ b. 1 - b) field n m
unfolding bts btr btc
bits-Changes field n m h lt = (
  changed-Changes set_bit (λ b. 1) field n m set_table h lt,
  changed-Changes reset_bit (λ b. 0) field n m reset_table h lt,
  changed-Changes complement_bit (λ b. 1 - b) field n m complement_table h lt,
)
