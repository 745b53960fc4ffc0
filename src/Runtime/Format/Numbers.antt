-- ===== src/Runtime/Format/Numbers.antt =====
-- runtime/hcrt.c, src/lexer.cpp: the numbers that `Print` writes are read back by the lexer.
use hlang.Base.{
  ℕ, zero, suc, ◌+◌, ◌/◌, ◌%◌, ◌^◌, ◌<◌, ◌≡◌, refl, true, false, [], ◌∷◌, ◌++◌, Bytes, arith, ◌==◌,
  if◌then◌else◌, Bool-cases, inl, inr, ==_iff,
}
use hlang.Base.Int.{signed64}
use hlang.Token.{SrcLoc, blank, int_lit}
use hlang.Scan.{Pos, advance}
use hlang.Scan.Number.{lex_number}
use hlang.Scan.Number.Decimal.{dec_digits, ends_number, lex_number-dec_digits}
use hlang.Runtime.Output.{digit_char, digits_of, lay_out, int_body}

-- how many digits a number has, over fuel
abbrev pub places : ℕ → ℕ → ℕ
places zero v = 0
places (suc n) v = let rest = places n (v / 10) in if v == 0 then 0 else suc rest

digit_char-lt : (d : ℕ) → d < 10 → digit_char false d ≡ b'0' + d
unfolding digit_char
digit_char-lt d h = ground arith

lay_out-digits_of :
    (n i v : ℕ) → lay_out false i (digits_of n 10 false v) ≡ dec_digits (places n v) v
unfolding lay_out digits_of digit_char
lay_out-digits_of zero i v = refl
lay_out-digits_of (suc n) i v = elim (Bool-cases (v == 0)) [
  | inl e ↦ rw e refl
  | inr e ↦
      rw e (rw (lay_out-digits_of n (suc i) (v / 10), digit_char-lt (v % 10) (omega arith)) refl)
]

places-enough : (n v : ℕ) → v < 10 ^ n → v < 10 ^ places n v
places-enough zero v h = h
places-enough (suc n) v h = elim (Bool-cases (v == 0)) [
  | inl e ↦ rw e (ground (arith, e))
  | inr e ↦
      let ih = places-enough n (v / 10) (omega (arith, h)) in
      let step : v < 10 ^ suc (places n (v / 10)) = omega (arith, ih) in rw e step
]

-- how many digits are written
abbrev digit_count : ℕ → ℕ → ℕ
digit_count n v = if v == 0 then 1 else places n v

lay_out-dec_digits :
    (n v : ℕ)
    → lay_out false 0 (if v == 0 then b'0' ∷ [] else digits_of n 10 false v)
      ≡ dec_digits (digit_count n v) v
unfolding lay_out
lay_out-dec_digits n v = elim (Bool-cases (v == 0)) [
  | inl e ↦ rw ((==_iff v 0).0 e) refl
  | inr e ↦ rw e (lay_out-digits_of n 0 v)
]

int_body-dec_digits : (v : ℕ) → int_body v 10 false false false ≡ dec_digits (digit_count 64 v) v
unfolding int_body
int_body-dec_digits v = lay_out-dec_digits 64 v

digit_count-enough : (n v : ℕ) → v < 10 ^ n → v < 10 ^ digit_count n v
digit_count-enough n v h = elim (Bool-cases (v == 0)) [
  | inl e ↦ rw e (ground (arith, e))
  | inr e ↦ rw e (places-enough n v h)
]

-- What `%u` writes for a number of 64 bits, before bytes that begin with no letter, digit, underscore
-- or dot, is read by the lexer as an integer with the number's bits, and those bytes are left, with
-- the position moved over the number.
pub lex_number-int_body :
    (l : SrcLoc) (v : ℕ) (rest : Bytes) (p : Pos)
    → v < 2 ^ 64
    → ends_number rest ≡ true
    → lex_number l (int_body v 10 false false false ++ rest, p) ≡ (
      record (blank l) { kind = int_lit; ival = signed64 v },
      (rest, advance (int_body v 10 false false false) p),
    )
lex_number-int_body l v rest p h e = rw (int_body-dec_digits v) (
    lex_number-dec_digits l (digit_count 64 v) v rest p (digit_count-enough 64 v (omega (arith, h)))
      h e)
