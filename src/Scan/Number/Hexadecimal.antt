-- ===== src/Scan/Number/Hexadecimal.antt =====
-- src/lexer.cpp: every number of 64 bits can be written as a hexadecimal literal.
use hlang.Base.{
  ℕ, zero, suc, ◌+◌, ◌-◌, ◌/◌, ◌%◌, ◌^◌, ◌<◌, ◌≡◌, refl, ◌∙◌, true, false, ◌||◌, not, [], ◌∷◌, ◌++◌,
  if◌then◌else◌, Bytes, arith, ◌==◌, ltb, isxdigit, isdigit, all_of,
}
use hlang.Base.Int.{signed64}
use hlang.Token.{SrcLoc, blank, int_lit}
use hlang.Scan.{Pos, step_pos, advance, at_test, skip_bytes}
use hlang.Scan.Literal.{hex_value}
use hlang.Scan.Number.Digits.{
  digits_value-append, all_of-append, all_of-weaken, take_while-append, select-all, min_left,
}
use hlang.Scan.Number.{digits_value, strtoull, digits_loop, lex_number}

-- a digit below 16, in lower case
abbrev pub hex_digit : ℕ → ℕ
hex_digit d = if ltb d 10 then b'0' + d else b'a' + (d - 10)

-- the last `w` hexadecimal digits of a number
abbrev pub hex_digits : ℕ → ℕ → Bytes
hex_digits zero n = []
hex_digits (suc w) n = hex_digits w (n / 16) ++ hex_digit (n % 16) ∷ []

hex_digit-isxdigit : (d : ℕ) → d < 16 → isxdigit (hex_digit d) ≡ true
unfolding isxdigit isdigit
hex_digit-isxdigit d h = ground arith

hex_value-hex_digit : (d : ℕ) → d < 16 → hex_value (hex_digit d) ≡ d
unfolding hex_value isdigit
hex_value-hex_digit d h = ground arith

digits_value-hex_digits : (w n : ℕ) → n < 16 ^ w → digits_value 16 0 (hex_digits w n) ≡ n
unfolding digits_value
digits_value-hex_digits zero n h = omega (arith, h)
digits_value-hex_digits (suc w) n h =
    digits_value-append 16 0 (hex_digits w (n / 16)) (hex_digit (n % 16) ∷ [])
    ∙ rw
        (
          digits_value-hex_digits w (n / 16) (omega (arith, h)),
          hex_value-hex_digit (n % 16) (omega arith),
        )
        (omega arith)

hex_digits-all : (w n : ℕ) → all_of isxdigit (hex_digits w n) ≡ true
hex_digits-all zero n = refl
hex_digits-all (suc w) n =
    rw
      (
        all_of-append isxdigit (hex_digits w (n / 16)) (hex_digit (n % 16) ∷ []),
        hex_digits-all w (n / 16),
        hex_digit-isxdigit (n % 16) (omega arith),
      )
      refl

isxdigit-not_underscore : (c : ℕ) → isxdigit c ≡ true → not (c == b'_') ≡ true
unfolding isxdigit isdigit
isxdigit-not_underscore c h = ground (arith, h)

-- `0x` and the digits of a number below 2 ^ 64, before bytes that do not go on with a digit or an
-- underscore: `lexNumber` gives an integer with the number's bits, as an `int64_t`, and those bytes
-- are left, with the position moved over the literal.
pub lex_number-hex_digits :
    (l : SrcLoc) (w n : ℕ) (rest : Bytes) (p : Pos)
    → n < 16 ^ w
    → n < 2 ^ 64
    → at_test 0 (λ c. isxdigit c || c == b'_') rest ≡ false
    → lex_number l (b'0' ∷ b'x' ∷ (hex_digits w n ++ rest), p) ≡ (
      record (blank l) { kind = int_lit; ival = signed64 n },
      (rest, advance (b'0' ∷ b'x' ∷ hex_digits w n) p),
    )
unfolding lex_number digits_loop skip_bytes strtoull advance
lex_number-hex_digits l w n rest p hw hn hr =
    let all = hex_digits-all w n in
    let taken =
      take_while-append (λ c. isxdigit c || c == b'_') (hex_digits w n) rest
        (step_pos b'x' (step_pos b'0' p))
        (all_of-weaken isxdigit (λ c. isxdigit c || c == b'_') (hex_digits w n)
          (λ c h. ground (arith, h)) all)
        hr in
    let kept =
      select-all (λ c. not (c == b'_')) (hex_digits w n)
        (all_of-weaken isxdigit (λ c. not (c == b'_')) (hex_digits w n) isxdigit-not_underscore
          all) in
    rw (taken, kept, digits_value-hex_digits w n hw) (rw (min_left n hn) refl)
