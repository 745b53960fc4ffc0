-- ===== src/Scan/Number/Decimal.antt =====
-- src/lexer.cpp: every number of 64 bits can be written as a decimal literal.
use hlang.Base.{
  ℕ, zero, suc, ◌+◌, ◌/◌, ◌%◌, ◌^◌, ◌<◌, ◌≡◌, refl, ap, ◌∙◌, Bool, true, false, ◌||◌, not, [], ◌∷◌,
  ◌++◌, Bytes, arith, ◌==◌, isdigit, isalnum, isalpha, all_of, if◌then◌else◌,
}
use hlang.Base.Int.{signed64}
use hlang.Token.{Token, SrcLoc, blank, int_lit, float_lit}
use hlang.Scan.{Pos, Input, advance, at_test, is_word}
use hlang.Scan.Literal.{hex_value}
use hlang.Scan.Number.Digits.{
  digits_value-append, all_of-append, all_of-weaken, take_while-append, select-all, min_left,
}
use hlang.Scan.Number.{
  digits_value, strtoull, digits_loop, fraction, exponent, decimal, is_hex, is_binary, lex_number,
}

-- the last `w` decimal digits of a number
abbrev pub dec_digits : ℕ → ℕ → Bytes
dec_digits zero n = []
dec_digits (suc w) n = dec_digits w (n / 10) ++ (b'0' + n % 10) ∷ []

isdigit-dec_digit : (d : ℕ) → d < 10 → isdigit (b'0' + d) ≡ true
unfolding isdigit
isdigit-dec_digit d h = ground arith

hex_value-dec_digit : (d : ℕ) → d < 10 → hex_value (b'0' + d) ≡ d
unfolding hex_value isdigit
hex_value-dec_digit d h = ground arith

digits_value-dec_digits : (w n : ℕ) → n < 10 ^ w → digits_value 10 0 (dec_digits w n) ≡ n
unfolding digits_value
digits_value-dec_digits zero n h = omega (arith, h)
digits_value-dec_digits (suc w) n h =
    digits_value-append 10 0 (dec_digits w (n / 10)) ((b'0' + n % 10) ∷ [])
    ∙ rw
        (
          digits_value-dec_digits w (n / 10) (omega (arith, h)),
          hex_value-dec_digit (n % 10) (omega arith),
        )
        (omega arith)

dec_digits-all : (w n : ℕ) → all_of isdigit (dec_digits w n) ≡ true
dec_digits-all zero n = refl
dec_digits-all (suc w) n =
    rw
      (
        all_of-append isdigit (dec_digits w (n / 10)) ((b'0' + n % 10) ∷ []),
        dec_digits-all w (n / 10),
        isdigit-dec_digit (n % 10) (omega arith),
      )
      refl

-- no byte of a name and no dot
abbrev pub ends_number : Bytes → Bool
ends_number rest = not (at_test 0 (λ c. is_word c || c == b'.') rest)

-- the end of a number is no digit, underscore, prefix, dot or exponent
not_hex :
    (ds rest : Bytes)
    → all_of isdigit ds ≡ true
    → ends_number rest ≡ true
    → is_hex (ds ++ rest) ≡ false
unfolding isdigit is_word isalnum isalpha
not_hex [] [] h e = refl
not_hex [] (c ∷ rest) h e = ground (arith, e)
not_hex (d ∷ []) [] h e = ground arith
not_hex (d ∷ []) (c ∷ rest) h e = ground (arith, e)
not_hex (d ∷ c ∷ ds) rest h e = ground (arith, h)

not_binary :
    (ds rest : Bytes)
    → all_of isdigit ds ≡ true
    → ends_number rest ≡ true
    → is_binary (ds ++ rest) ≡ false
unfolding isdigit is_word isalnum isalpha
not_binary [] [] h e = refl
not_binary [] (c ∷ rest) h e = ground (arith, e)
not_binary (d ∷ []) [] h e = ground arith
not_binary (d ∷ []) (c ∷ rest) h e = ground (arith, e)
not_binary (d ∷ c ∷ ds) rest h e = ground (arith, h)

no_digit :
    (rest : Bytes) → ends_number rest ≡ true → at_test 0 (λ c. isdigit c || c == b'_') rest ≡ false
unfolding is_word isalnum
no_digit [] e = refl
no_digit (c ∷ rest) e = ground (arith, e)

isdigit-not_underscore : (c : ℕ) → isdigit c ≡ true → not (c == b'_') ≡ true
unfolding isdigit
isdigit-not_underscore c h = ground (arith, h)

digits_loop-digits :
    (ds rest : Bytes) (p : Pos)
    → all_of isdigit ds ≡ true
    → ends_number rest ≡ true
    → digits_loop isdigit (ds ++ rest, p) ≡ (ds, (rest, advance ds p))
unfolding digits_loop
digits_loop-digits ds rest p h e =
    rw
      (
        take_while-append (λ c. isdigit c || c == b'_') ds rest p
            (all_of-weaken isdigit (λ c. isdigit c || c == b'_') ds (λ c h. ground (arith, h)) h)
            (no_digit rest e),
        select-all (λ c. not (c == b'_')) ds
            (all_of-weaken isdigit (λ c. not (c == b'_')) ds isdigit-not_underscore h),
      )
      refl

fraction-none :
    (ds rest : Bytes) (p : Pos)
    → ends_number rest ≡ true
    → fraction (ds, (rest, p)) ≡ ((false, ds), (rest, p))
unfolding fraction
fraction-none ds [] p e = ground arith
fraction-none ds (c ∷ rest) p e = ground (arith, e)

exponent-none :
    (ds rest : Bytes) (p : Pos)
    → ends_number rest ≡ true
    → exponent ((false, ds), (rest, p)) ≡ ((false, ds), (rest, p))
unfolding exponent is_word isalnum isalpha
exponent-none ds [] p e = ground arith
exponent-none ds (c ∷ rest) p e = ground (arith, e)

number-dec_digits :
    (w n : ℕ) (rest : Bytes) (p : Pos)
    → ends_number rest ≡ true
    → exponent (fraction (digits_loop isdigit (dec_digits w n ++ rest, p)))
      ≡ ((false, dec_digits w n), (rest, advance (dec_digits w n) p))
number-dec_digits w n rest p e =
    let ds = dec_digits w n in
    ap (λ x. exponent (fraction x)) (digits_loop-digits ds rest p (dec_digits-all w n) e)
    ∙ ap exponent (fraction-none ds rest (advance ds p) e)
    ∙ exponent-none ds rest (advance ds p) e

decimal-dec_digits :
    (l : SrcLoc) (w n : ℕ) (rest : Bytes) (p : Pos)
    → n < 10 ^ w
    → n < 2 ^ 64
    → ends_number rest ≡ true
    → decimal l (dec_digits w n ++ rest, p)
      ≡ (record (blank l) { kind = int_lit; ival = signed64 n }, (rest, advance (dec_digits w n) p))
unfolding decimal digits_loop fraction exponent strtoull
decimal-dec_digits l w n rest p hw hn e =
    let token : ((Bool × Bytes) × Input) → (Token × Input) = λ r. (
      if r.0.0
          then record (blank l) { kind = float_lit; fval = r.0.1 }
          else record (blank l) { kind = int_lit; ival = signed64 (strtoull 10 r.0.1) },
      r.1,
    ) in
    ap token (number-dec_digits w n rest p e)
    ∙ rw (digits_value-dec_digits w n hw) (rw (min_left n hn) refl)

-- The digits of a number below 2 ^ 64, before bytes that begin with no letter, digit, underscore or
-- dot: `lexNumber` gives an integer with the number's bits, as an `int64_t`, and those bytes are
-- left, with the position moved over the literal.
pub lex_number-dec_digits :
    (l : SrcLoc) (w n : ℕ) (rest : Bytes) (p : Pos)
    → n < 10 ^ w
    → n < 2 ^ 64
    → ends_number rest ≡ true
    → lex_number l (dec_digits w n ++ rest, p)
      ≡ (record (blank l) { kind = int_lit; ival = signed64 n }, (rest, advance (dec_digits w n) p))
unfolding lex_number
lex_number-dec_digits l w n rest p hw hn e =
    let ds = dec_digits w n in
    let all = dec_digits-all w n in
    rw (not_hex ds rest all e, not_binary ds rest all e) (decimal-dec_digits l w n rest p hw hn e)
