-- ===== src/Scan/Literal.antt =====
-- src/lexer.cpp: `lexCharsInto`, which decodes the bytes between two quotes.
pub mod Quoting
use hlang.Base.{
  ℕ, zero, suc, ◌+◌, ◌-◌, ◌*◌, Bool, true, false, ◌&&◌, ◌||◌, List, [], ◌∷◌, ◌++◌, ◌==◌, ltb, leb,
  if◌then◌else◌, Bytes, Option, none, some, length, isxdigit, isdigit,
}
use hlang.Scan.{Pos, step_pos, Input, getc, at_is, at_test}

pub data Fault : Type 0 where
  unterminated_literal hex_digits : Fault

-- The text appended to the token, the faults reported, and the input that is left.
pub record Chars : Type 0 where
  pub text : Bytes
  pub faults : List Fault
  pub rest : Input

abbrev pub push : ℕ → Chars → Chars
push c r = record r { text = c ∷ r.text }

abbrev report : Fault → Chars → Chars
report e r = record r { faults = e ∷ r.faults }

abbrev pub stop : List Fault → Input → Chars
stop fs s = record { text = []; faults = fs; rest = s }

-- `isdigit(d) ? d - '0' : tolower(d) - 'a' + 10`, on a hexadecimal digit
unfoldable pub hex_value : ℕ → ℕ
unfolding isdigit
hex_value d = if isdigit d then d - b'0' else if leb b'a' d then d - b'a' + 10 else d - b'A' + 10

-- The loop of `case 'x'`: up to `n` more digits, the value so far, and whether one was read.
unfoldable pub hex_digits_loop : ℕ → ℕ → Bool → Bytes → Pos → (ℕ × Bool) × Input
unfolding isxdigit hex_value step_pos
hex_digits_loop zero v some_read cs p = ((v, some_read), (cs, p))
hex_digits_loop (suc n) v some_read [] p = ((v, some_read), ([], p))
hex_digits_loop (suc n) v some_read (c ∷ cs) p =
    let next = hex_digits_loop n (v * 16 + hex_value c) true cs (step_pos c p) in
    if isxdigit c then next else ((v, some_read), (c ∷ cs, p))

-- The escapes that stand for one byte; any other byte stands for itself.
unfoldable pub escape_byte : ℕ → ℕ
escape_byte e =
    if e == b'n'
    then 10
    else if e == b't'
    then 9
    else if e == b'r'
    then 13
    else if e == b'a'
    then 7
    else if e == b'b'
    then 8
    else if e == b'f'
    then 12
    else if e == b'v'
    then 11
    else if e == b'0'
    then 0
    else e

-- The loop of `lexCharsInto`. Each round takes a byte, so the bytes at hand are enough fuel, and
-- there are none left where it runs out.
unfoldable pub chars_loop : ℕ → ℕ → Bytes → Pos → Chars
unfolding step_pos hex_digits_loop escape_byte
chars_loop zero quote cs p = stop (unterminated_literal ∷ []) (cs, p)
chars_loop (suc n) quote [] p = stop (unterminated_literal ∷ []) ([], p)
chars_loop (suc n) quote (c ∷ []) p =
    let q = step_pos c p in
    let more = chars_loop n quote [] q in
    if c == quote
    then stop [] ([], q)
    else if c == b'\\'
    then stop (unterminated_literal ∷ []) ([], q)
    else push c more
chars_loop (suc n) quote (c ∷ e ∷ cs) p =
    let q = step_pos c p in
    let r = step_pos e q in
    let plain = chars_loop n quote (e ∷ cs) q in
    let pair = chars_loop n quote cs r in
    let hex = hex_digits_loop 2 0 false cs r in
    let behind = chars_loop n quote hex.1.0 hex.1.1 in
    let noted = if hex.0.1 then behind else report hex_digits behind in
    let coded = push hex.0.0 noted in
    let escaped = if e == b'x' then coded else push (escape_byte e) pair in
    if c == quote
    then stop [] (e ∷ cs, q)
    else if c == b'$'
    then (if e == b'$' then push b'$' pair else push b'$' plain)
    else if c == b'\\'
    then escaped
    else push c plain

-- `lexCharsInto(t, quote)`, behind the opening quote
unfoldable pub lex_chars : ℕ → Bytes → Pos → Chars
unfolding chars_loop
lex_chars quote cs p = chars_loop (length cs) quote cs p
