-- ===== src/Runtime/Bits.antt =====
-- runtime/hcrt.c: the bits of a field of bytes.
pub mod Laws
use Prim.Native.Nat.{bit_and, bit_or, bit_xor}
use hlang.Base.{ℕ, zero, suc, ◌-◌, ◌/◌, ◌%◌, ◌^◌, List, [], ◌∷◌, Bytes, Option, none, some}

-- what is done with a byte at an index; a byte behind the field is none of it
unfoldable pub modify : (ℕ → ℕ) → ℕ → Bytes → Option Bytes
modify f i [] = none
modify f zero (c ∷ cs) = some (f c ∷ cs)
modify f (suc i) (c ∷ cs) = elim (modify f i cs) [ none ↦ none | some rest ↦ some (c ∷ rest) ]

unfoldable pub byte_at : ℕ → Bytes → Option ℕ
byte_at i [] = none
byte_at zero (c ∷ cs) = some c
byte_at (suc i) (c ∷ cs) = byte_at i cs

abbrev pub bit_of : ℕ → ℕ → ℕ
bit_of i c = bit_and (c / 2 ^ i) 1

abbrev pub set_bit : ℕ → ℕ → ℕ
set_bit i c = bit_or c (2 ^ i)

abbrev pub reset_bit : ℕ → ℕ → ℕ
reset_bit i c = bit_and c (255 - 2 ^ i)

abbrev pub complement_bit : ℕ → ℕ → ℕ
complement_bit i c = bit_xor c (2 ^ i)

-- `HC_Bt`, for a bit number from 0 on
unfoldable pub bt : Bytes → ℕ → Option ℕ
unfolding byte_at
bt field n = elim (byte_at (n / 8) field) [ none ↦ none | some c ↦ some (bit_of (n % 8) c) ]

-- the old bit and the changed field, for a change of a byte
abbrev pub changed : (ℕ → ℕ → ℕ) → Bytes → ℕ → Option (ℕ × Bytes)
changed f field n = elim (bt field n) [
  | none ↦ none
  | some old ↦ elim (modify (f (n % 8)) (n / 8) field) [
    | none ↦ none
    | some after ↦ some (old, after)
  ]
]

-- `HC_Bts`, `HC_Btr` and `HC_Btc`
unfoldable pub bts : Bytes → ℕ → Option (ℕ × Bytes)
unfolding bt modify
bts field n = changed set_bit field n

unfoldable pub btr : Bytes → ℕ → Option (ℕ × Bytes)
unfolding bt modify
btr field n = changed reset_bit field n

unfoldable pub btc : Bytes → ℕ → Option (ℕ × Bytes)
unfolding bt modify
btc field n = changed complement_bit field n
