-- ===== src/Scan/Number.antt =====
-- src/lexer.cpp: `lexNumber`, and the `strtoull` that it calls.
pub mod Digits
pub mod Hexadecimal
pub mod Decimal
use hlang.Base.{
  ℕ, ◌+◌, ◌-◌, ◌*◌, ◌^◌, Bool, true, false, ◌&&◌, ◌||◌, not, [], ◌∷◌, ◌++◌, ◌==◌, if◌then◌else◌,
  Bytes, select, min, isxdigit, isdigit, take,
}
use hlang.Base.Int.{signed64}
use hlang.Token.{Token, SrcLoc, blank, int_lit, float_lit}
use hlang.Scan.{Input, at_is, at_test, take_while, skip_bytes}
use hlang.Scan.Literal.{hex_value}

-- the value of digits in a base, the first digit first
unfoldable pub digits_value : ℕ → ℕ → Bytes → ℕ
unfolding hex_value
digits_value base acc [] = acc
digits_value base acc (d ∷ ds) = digits_value base (acc * base + hex_value d) ds

-- `strtoull`, which saturates, on digits of the base
unfoldable pub strtoull : ℕ → Bytes → ℕ
unfolding digits_value
strtoull base ds = min (digits_value base 0 ds) (2 ^ 64 - 1)

-- `while (f(peekc()) || peekc() == '_')`, dropping the underscores
unfoldable pub digits_loop : (ℕ → Bool) → Input → Bytes × Input
unfolding take_while
digits_loop f s =
    let r = take_while (λ c. f c || c == b'_') s.0 s.1 in (select (λ c. not (c == b'_')) r.0, r.1)

abbrev int_token : SrcLoc → ℕ → Token
int_token l v = record (blank l) { kind = int_lit; ival = signed64 v }

abbrev pub is_binary_digit : ℕ → Bool
is_binary_digit c = c == b'0' || c == b'1'

-- `peekc(off) == lower || peekc(off) == upper`
abbrev either_case : ℕ → ℕ → ℕ → Bytes → Bool
either_case off lower upper cs = at_is off lower cs || at_is off upper cs

-- a fraction: the dot, then digits
unfoldable pub fraction : Bytes × Input → (Bool × Bytes) × Input
unfolding digits_loop isdigit skip_bytes
fraction (num, (cs, p)) =
    let more = digits_loop isdigit (skip_bytes 1 (cs, p)) in
    if at_is 0 b'.' cs && at_test 1 isdigit cs
    then ((true, num ++ b'.' ∷ more.0), more.1)
    else ((false, num), (cs, p))

-- an exponent: `e`, a sign or a digit, then digits (with no underscore)
unfoldable pub exponent : (Bool × Bytes) × Input → (Bool × Bytes) × Input
unfolding take_while isdigit skip_bytes
exponent ((is_float, num), (cs, p)) =
    let s = skip_bytes 2 (cs, p) in
    let more = take_while isdigit s.0 s.1 in
    let signed = (at_is 1 b'+' cs || at_is 1 b'-' cs) && at_test 2 isdigit cs in
    if either_case 0 b'e' b'E' cs && (at_test 1 isdigit cs || signed)
    then ((true, num ++ take 2 cs ++ more.0), more.1)
    else ((is_float, num), (cs, p))

-- the decimal forms
unfoldable pub decimal : SrcLoc → Input → Token × Input
unfolding digits_loop fraction exponent strtoull isdigit
decimal l s =
    let r = exponent (fraction (digits_loop isdigit s)) in
    (
      if r.0.0
          then record (blank l) { kind = float_lit; fval = r.0.1 }
          else int_token l (strtoull 10 r.0.1),
      r.1,
    )

-- the prefixes of the hexadecimal and the binary form
abbrev pub is_hex : Bytes → Bool
is_hex cs = at_is 0 b'0' cs && either_case 1 b'x' b'X' cs

abbrev pub is_binary : Bytes → Bool
is_binary cs = at_is 0 b'0' cs && either_case 1 b'b' b'B' cs

-- `lexNumber`
unfoldable pub lex_number : SrcLoc → Input → Token × Input
unfolding digits_loop decimal strtoull isxdigit skip_bytes
lex_number l (cs, p) =
    let hex = digits_loop isxdigit (skip_bytes 2 (cs, p)) in
    let bin = digits_loop is_binary_digit (skip_bytes 2 (cs, p)) in
    if is_hex cs
    then (int_token l (strtoull 16 hex.0), hex.1)
    else if is_binary cs
    then (int_token l (strtoull 2 bin.0), bin.1)
    else decimal l (cs, p)
