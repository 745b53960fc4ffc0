-- ===== src/Scan/Symbol.antt =====
-- src/lexer.cpp: the switch of `lexToken` over the punctuators.
pub mod Spelling
use hlang.Base.{
  ℕ, ◌+◌, Bool, true, false, ◌&&◌, List, [], ◌∷◌, ◌==◌, if◌then◌else◌, Bytes, Option, none, some,
}
use hlang.Token.{
  Punct, amp, amp_eq, and_and, arrow, assign, bang, caret, caret_eq, colon, colon_colon, comma,
  dollar, dot, ellipsis, eq_eq, ge, gt, l_brace, l_bracket, l_paren, le, lt, minus, minus_eq,
  minus_minus, ne, or_or, percent, percent_eq, pipe, pipe_eq, plus, plus_eq, plus_plus, pow,
  question, r_brace, r_bracket, r_paren, semi, shl, shl_eq, shr, shr_eq, slash, slash_eq, star,
  star_eq, tilde, xor_xor,
}
use hlang.Scan.{at_is}

-- the lambda `two(n, yes, no)`, with `k` bytes taken before
abbrev two : ℕ → ℕ → Punct → Punct → Bytes → Option (Punct × ℕ)
two k n y o cs = if at_is k n cs then some (y, k + 1) else some (o, k)

-- The punctuator that begins with `c`, and how many of the bytes `cs` behind `c` it takes.
unfoldable pub lex_punct : ℕ → Bytes → Option (Punct × ℕ)
lex_punct c cs =
    if c == b'('
    then (some (l_paren, 0))
    else if c == b')'
    then (some (r_paren, 0))
    else if c == b'['
    then (some (l_bracket, 0))
    else if c == b']'
    then (some (r_bracket, 0))
    else if c == b'{'
    then (some (l_brace, 0))
    else if c == b'}'
    then (some (r_brace, 0))
    else if c == b','
    then (some (comma, 0))
    else if c == b';'
    then (some (semi, 0))
    else if c == b'?'
    then (some (question, 0))
    else if c == b'$'
    then (some (dollar, 0))
    else if c == b'`'
    then (some (pow, 0))
    else if c == b'~'
    then (some (tilde, 0))
    else if c == b':'
    then (two 0 b':' colon_colon colon cs)
    else if c == b'.'
    then (if at_is 0 b'.' cs && at_is 1 b'.' cs then some (ellipsis, 2) else some (dot, 0))
    else if c == b'+'
    then (if at_is 0 b'+' cs then some (plus_plus, 1) else two 0 b'=' plus_eq plus cs)
    else if c == b'-'
    then (if at_is 0 b'-' cs
        then some (minus_minus, 1)
        else if at_is 0 b'>' cs
        then some (arrow, 1)
        else two 0 b'=' minus_eq minus cs)
    else if c == b'*'
    then (two 0 b'=' star_eq star cs)
    else if c == b'/'
    then (two 0 b'=' slash_eq slash cs)
    else if c == b'%'
    then (two 0 b'=' percent_eq percent cs)
    else if c == b'!'
    then (two 0 b'=' ne bang cs)
    else if c == b'='
    then (two 0 b'=' eq_eq assign cs)
    else if c == b'&'
    then (if at_is 0 b'&' cs then some (and_and, 1) else two 0 b'=' amp_eq amp cs)
    else if c == b'|'
    then (if at_is 0 b'|' cs then some (or_or, 1) else two 0 b'=' pipe_eq pipe cs)
    else if c == b'^'
    then (if at_is 0 b'^' cs then some (xor_xor, 1) else two 0 b'=' caret_eq caret cs)
    else if c == b'<'
    then (if at_is 0 b'<' cs then two 1 b'=' shl_eq shl cs else two 0 b'=' le lt cs)
    else if c == b'>'
    then (if at_is 0 b'>' cs then two 1 b'=' shr_eq shr cs else two 0 b'=' ge gt cs)
    else none
