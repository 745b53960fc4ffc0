-- ===== src/Lexer/Regions.antt =====
-- src/lexer.cpp: the loops that pass over text, `skipCondBlockLine`, `skipToEndOfLine`, and the
-- body of an #exe block. Each round takes a byte, so the bytes at hand are enough fuel, and none is
-- left where it runs out.
pub mod Quotes
pub mod Stops
use hlang.Base.{
  ℕ, zero, suc, ◌+◌, ◌-◌, Bool, true, false, ◌&&◌, ◌||◌, not, List, [], ◌∷◌, ◌++◌, ◌==◌,
  if◌then◌else◌, Bytes, Option, none, some, length, take, map,
}
use hlang.Scan.{Pos, Input, step_pos, at_is, skip_bytes, skip_line, block_comment, take_while, getc}
use hlang.Scan.Literal.{Fault, lex_chars}

-- the line and block comments at `c ∷ cs`
abbrev pub is_line_comment : ℕ → Bytes → Bool
is_line_comment c cs = c == b'/' && at_is 0 b'/' cs

abbrev pub is_block_comment : ℕ → Bytes → Bool
is_block_comment c cs = c == b'/' && at_is 0 b'*' cs

-- `getc(); getc();` and the loop to the closing, with whether it was found
unfoldable pub skip_block : Bytes → Pos → Bool × Input
unfolding skip_bytes block_comment
skip_block cs p = let s = skip_bytes 2 (cs, p) in block_comment s.0 s.1

-- `lexCharsInto` reports its faults at the position where it starts.
abbrev located : Pos → List Fault → List (Pos × Fault)
located p = map (λ f. (p, f))

-- `skipCondBlockLine`, with the faults that it reports. At a quote `lexCharsInto` is called with the
-- quote itself still unread.
unfoldable pub skip_region : ℕ → Bytes → Pos → List (Pos × Fault) × Input
unfolding skip_line skip_block lex_chars step_pos
skip_region n [] p = ([], ([], p))
skip_region zero (c ∷ cs) p = ([], (c ∷ cs, p))
skip_region (suc n) (c ∷ cs) p =
    let line = skip_line (c ∷ cs) p in
    let behind_line = skip_region n line.0 line.1 in
    let block = (skip_block (c ∷ cs) p).1 in
    let behind_block = skip_region n block.0 block.1 in
    let quoted = lex_chars c (c ∷ cs) p in
    let left = quoted.rest in
    let behind_quote = skip_region n left.0 left.1 in
    let q = step_pos c p in
    let behind = skip_region n cs q in
    if c == b'#'
    then ([], (c ∷ cs, p))
    else if is_line_comment c cs
    then behind_line
    else if is_block_comment c cs
    then behind_block
    else if c == b'"' || c == b'\''
    then (located p quoted.faults ++ behind_quote.0, behind_quote.1)
    else if c == b'\n'
    then ([], (cs, q))
    else behind

-- `skipToEndOfLine`, with the text that it captures
unfoldable pub skip_to_end : Bytes → Pos → Bytes × Input
unfolding step_pos
skip_to_end [] p = ([], ([], p))
skip_to_end (c ∷ []) p = if c == b'\n' then ([], (c ∷ [], p)) else (c ∷ [], ([], step_pos c p))
skip_to_end (c ∷ d ∷ cs) p =
    let q = step_pos c p in
    let spliced = skip_to_end cs (step_pos d q) in
    let next = skip_to_end (d ∷ cs) q in
    if c == b'\\' && d == b'\n'
    then (b'\n' ∷ spliced.0, spliced.1)
    else if c == b'\n'
    then ([], (c ∷ d ∷ cs, p))
    else (c ∷ next.0, next.1)

-- The body of an #exe block, whether its closing brace was found, and the faults.
pub record Body : Type 0 where
  pub text : Bytes
  pub closed : Bool
  pub faults : List (Pos × Fault)
  pub rest : Input

abbrev end : Bool → Input → Body
end b s = record { text = []; closed = b; faults = []; rest = s }

abbrev add : Bytes → Body → Body
add cs b = record b { text = cs ++ b.text }

-- The loop of `handleExeBlock`, at `depth` braces still open. A literal is taken over unread.
unfoldable pub exe_body : ℕ → ℕ → Bytes → Pos → Body
unfolding take_while step_pos lex_chars
exe_body n depth [] p = end false ([], p)
exe_body zero depth (c ∷ cs) p = end false (c ∷ cs, p)
exe_body (suc n) depth (c ∷ cs) p =
    let q = step_pos c p in
    let quoted = lex_chars c cs q in
    let left = quoted.rest in
    let behind_quote = exe_body n depth left.0 left.1 in
    let used = take (length (c ∷ cs) - length left.0) (c ∷ cs) in
    let literal =
      add used (record behind_quote { faults = located q quoted.faults ++ behind_quote.faults }) in
    let line = take_while (λ d. not (d == b'\n')) (c ∷ cs) p in
    let behind_line = exe_body n depth line.1.0 line.1.1 in
    let deeper = exe_body n (depth + 1) cs q in
    let shallower = exe_body n (depth - 1) cs q in
    let same = exe_body n depth cs q in
    if c == b'"' || c == b'\''
    then literal
    else if is_line_comment c cs
    then add line.0 behind_line
    else if c == b'{'
    then add (c ∷ []) deeper
    else if c == b'}'
    then (if depth == 1 then end true (cs, q) else add (c ∷ []) shallower)
    else add (c ∷ []) same

-- The white space before the brace and the byte behind it, the brace if there is one.
unfoldable pub exe_open : Input → Option ℕ × Input
unfolding take_while getc
exe_open s =
    let blank = λ (c : ℕ). c == b' ' || c == b'\t' || c == b'\r' || c == b'\n' in
    getc (take_while blank s.0 s.1).1
