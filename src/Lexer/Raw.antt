-- ===== src/Lexer/Raw.antt =====
-- src/lexer.cpp: `rawNext`, `lexLineTokens`, `handleDirective` and `next`. A round of a loop is a
-- function of its own; the functions that call one another take fuel, a unit for each round.
pub mod Reexpansion
use hlang.Base.{
  ℕ, zero, suc, Bool, true, false, not, ◌&&◌, ◌||◌, List, [], ◌∷◌, ◌==◌, if◌then◌else◌, Bytes,
  Option, none, some, length, is_empty, map,
}
use hlang.Run.{Run, ok, out_of_fuel, ◌>>=◌}
use hlang.Token.{Token, SrcLoc, blank, eof, ◌=tok◌}
use hlang.Scan.{
  Pos, Input, at_is, skip_bytes, skip_line, take_while, block_comment, is_space, is_blank,
}
use hlang.Scan.Lexeme.{Complaint, literal, char_too_long, stray, Lexed, lex_token}
use hlang.Lexer.{
  Lexer, Source, Host, Message, lexing, unterminated_comment, unterminated_if, input, set_input,
  here, error, error_if, at_eof,
}
use hlang.Lexer.Conds.{skipping}
use hlang.Lexer.Expand.{expand_token}
use hlang.Lexer.Regions.{is_line_comment, is_block_comment, skip_block, skip_region, skip_to_end}
use hlang.Lexer.Blocks.{report_faults}
use hlang.Lexer.Directives.{directive_of, read_name, reads_line, line_directive, other_directive}

-- The place of a complaint of `lexToken` about the token at `l`.
abbrev place : SrcLoc → Complaint → SrcLoc
place l (literal p e) = record l { line = p.line; col = p.col }
place l _ = l

complain : SrcLoc → List Complaint → Lexer → Lexer
unfolding error
complain l [] lx = lx
complain l (c ∷ cs) lx = complain l cs (error (place l c) (lexing c) lx)

-- `lexToken()` at `c ∷ cs`: none where the byte was stray
unfoldable pub lex_at : ℕ → Bytes → Pos → Lexer → Option Token × Lexer
unfolding lex_token complain here set_input
lex_at c cs p lx =
    let l = here lx in
    let r = lex_token l c cs p in (r.token, complain l r.complaints (set_input r.rest lx))

-- a round of the loop of `rawNext`
pub data Round : Type 0 where
  produce : Token → Lexer → Round
  again : Lexer → Round
  directive : Lexer → Round

abbrev lexed : Option Token × Lexer → Round
lexed (none, lx) = again lx
lexed (some t, lx) = produce t lx

-- the end of the source on top of the stack
abbrev pop_source : Source → List Source → Lexer → Lexer
pop_source s r lx =
    let bad = not (is_empty lx.conds) && is_empty r in
    record (error_if bad (here lx) unterminated_if lx) { stack = r }

round_at : ℕ → Bytes → Pos → Lexer → Round
unfolding error_if skip_bytes skip_line skip_block skip_region skipping report_faults lex_at
    set_input here
round_at c cs p lx =
    let block = skip_block (c ∷ cs) p in
    let region = skip_region (length (c ∷ cs)) (c ∷ cs) p in
    if is_space c
    then again (set_input (skip_bytes 1 (c ∷ cs, p)) lx)
    else if is_line_comment c cs
    then again (set_input (skip_line (c ∷ cs) p) lx)
    else if is_block_comment c cs
    then again (error_if (not block.0) (here lx) unterminated_comment (set_input block.1 lx))
    else if c == b'#'
    then directive (set_input (skip_bytes 1 (c ∷ cs, p)) lx)
    else if skipping lx.conds
    then again (set_input region.1 (report_faults region.0 lx))
    else lexed (lex_at c cs p lx)

round_in : Source → List Source → Bytes → Lexer → Round
unfolding round_at error_if here
round_in s r [] lx = again (pop_source s r lx)
round_in s r (c ∷ cs) lx = round_at c cs s.pos lx

unfoldable pub raw_round : Lexer → Round
unfolding round_in here
raw_round lx = elim lx.stack [
  | [] ↦ produce (record (blank (here lx)) { kind = eof }) lx
  | s ∷ r ↦ round_in s r s.rest lx
]

-- A round of the loop of `lexLineTokens`: with the line that tokens must start on, or none for -1.
pub data LineRound : Type 0 where
  stop : Lexer → LineRound
  go_on : ℕ → Lexer → LineRound
  emit : Token → Lexer → LineRound
  raw : Lexer → LineRound

abbrev line_lexed : Option Token × Lexer → LineRound
line_lexed (none, lx) = raw lx
line_lexed (some t, lx) = emit t lx

line_round_at : ℕ → Bytes → Pos → Lexer → LineRound
unfolding skip_bytes skip_to_end skip_block lex_at set_input
line_round_at start [] p lx = stop (set_input ([], p) lx)
line_round_at start (c ∷ cs) p lx =
    let here_lx = set_input (c ∷ cs, p) lx in
    let spliced = skip_bytes 2 (c ∷ cs, p) in
    let q = spliced.1 in
    if c == b'\\' && at_is 0 b'\n' cs
    then go_on q.line (set_input spliced lx)
    else if c == b'\n'
    then stop here_lx
    else if is_line_comment c cs
    then stop (set_input (skip_to_end (c ∷ cs) p).1 lx)
    else if is_block_comment c cs
    then go_on start (set_input (skip_block (c ∷ cs) p).1 lx)
    else if not (p.line == start)
    then stop here_lx
    else line_lexed (lex_at c cs p here_lx)

unfoldable pub line_round : ℕ → Lexer → LineRound
unfolding line_round_at take_while at_eof input
line_round start lx =
    let s = input lx in
    let r = (take_while is_blank s.0 s.1).1 in
    if at_eof lx then stop lx else line_round_at start r.0 r.1 lx

abbrev start_line : Lexer → ℕ
start_line lx = let s = here lx in s.line

unfoldable mutual
  unfolding raw_round line_round directive_of read_name reads_line line_directive other_directive
      skipping

  -- `rawNext`
  pub raw_next : ℕ → Host → Lexer → Run (Token × Lexer)
  raw_next zero h lx = out_of_fuel
  raw_next (suc f) h lx = elim (raw_round lx) [
    | produce t lx' ↦ ok (t, lx')
    | again lx' ↦ raw_next f h lx'
    | directive lx' ↦ handle_directive f h lx' >>= λ lx''. raw_next f h lx''
  ]

  -- the loop of `lexLineTokens`
  pub line_tokens : ℕ → ℕ → Host → Lexer → Run (List Token × Lexer)
  line_tokens zero start h lx = out_of_fuel
  line_tokens (suc f) start h lx = elim (line_round start lx) [
    | stop lx' ↦ ok ([], lx')
    | go_on line lx' ↦ line_tokens f line h lx'
    | emit t lx' ↦ line_tokens f start h lx' >>= λ (ts, lx''). ok (t ∷ ts, lx'')
    | raw lx' ↦ raw_next f h lx' >>= λ (t, lx'').
        line_tokens f start h lx'' >>= λ (ts, lx₃). ok (t ∷ ts, lx₃)
  ]

  -- `handleDirective`, behind the `#`
  pub handle_directive : ℕ → Host → Lexer → Run Lexer
  handle_directive zero h lx = out_of_fuel
  handle_directive (suc f) h lx =
      let l = here lx in
      let named = read_name lx in
      let d = directive_of named.0 in
      let lx' = named.1 in
      let skip = skipping lx'.conds in
      let on_line = line_tokens f (start_line lx') h lx' >>= λ (ts, lx'').
      line_directive h f skip l d ts lx'' in
      if reads_line skip d then on_line else ok (other_directive h skip l d lx')

-- A token of `pending_`, else one of `rawNext`; the flag says that it came from `pending_`.
unfoldable pub pull : ℕ → Host → Lexer → Run (Bool × Token × Lexer)
unfolding raw_next
pull f h lx = elim lx.pending [
  | [] ↦ raw_next f h lx >>= λ (t, lx'). ok (false, t, lx')
  | t ∷ ts ↦ ok (true, t, record lx { pending = ts })
]

-- `next`. Where `expandOrReturn` meets an empty macro it goes on as `next` does, so both are the one
-- loop here.
unfoldable pub next : ℕ → Host → Lexer → Run (Token × Lexer)
unfolding pull expand_token
next zero h lx = out_of_fuel
next (suc f) h lx = pull f h lx >>= λ (queued, t, lx').
    let expanded = expand_token h f t lx' >>= λ (o, lx''). elim o [
      | some u ↦ ok (u, lx'')
      | none ↦ next f h lx''
    ] in
    if not queued && (t.kind =tok eof) then ok (t, lx') else expanded
