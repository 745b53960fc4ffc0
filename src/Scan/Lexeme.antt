-- ===== src/Scan/Lexeme.antt =====
-- src/lexer.cpp: `lexToken`, one token from the characters at hand.
pub mod Characters
use hlang.Base.{
  ℕ, ◌+◌, ◌*◌, ◌%◌, ◌^◌, ◌&&◌, ◌||◌, not, List, [], ◌∷◌, ◌==◌, ltb, ◌++◌, if◌then◌else◌, Bytes,
  Option, none, some, length, map, isalpha, isalnum, isdigit,
}
use hlang.Base.Int.{signed64}
use hlang.Token.{Tok, Token, SrcLoc, Punct, at_sign, blank, ident, str_lit, char_lit}
use hlang.Scan.{Pos, Input, step_pos, at_is, take_while, skip_bytes, is_word}
use hlang.Scan.Literal.{Fault, lex_chars}
use hlang.Scan.Number.{lex_number}
use hlang.Scan.Symbol.{lex_punct}

-- What `lexToken` reports: a fault in a literal is reported where the literal's text starts.
pub data Complaint : Type 0 where
  literal : Pos → Fault → Complaint
  char_too_long : Complaint
  stray : ℕ → Complaint

-- No token: the byte was stray, and the caller goes on with `rawNext`.
pub record Lexed : Type 0 where
  pub token : Option Token
  pub complaints : List Complaint
  pub rest : Input

-- `v = (v << 8) | text[i]` from the last byte down, on 64 bits
unfoldable pub pack_chars : Bytes → ℕ
pack_chars [] = 0
pack_chars (c ∷ cs) = (pack_chars cs * 256 + c) % 2 ^ 64

abbrev one : Token → Input → Lexed
one t s = record { token = some t; complaints = []; rest = s }

abbrev symbol : SrcLoc → Punct → Input → Lexed
symbol l q s = one (record (blank l) { kind = Tok.punct; punct = q }) s

unfoldable pub lex_string : SrcLoc → Bytes → Pos → Lexed
unfolding lex_chars
lex_string l cs p =
    let r = lex_chars b'"' cs p in
    record {
      token = some (record (blank l) { kind = str_lit; text = r.text });
      complaints = map (literal p) r.faults;
      rest = r.rest;
    }

unfoldable pub lex_char : SrcLoc → Bytes → Pos → Lexed
unfolding lex_chars pack_chars signed64
lex_char l cs p =
    let r = lex_chars b'\'' cs p in
    let long = if ltb 8 (length r.text) then char_too_long ∷ [] else [] in
    record {
      token = some (record (blank l) {
        kind = char_lit;
        text = r.text;
        ival = signed64 (pack_chars r.text);
      });
      complaints = map (literal p) r.faults ++ long;
      rest = r.rest;
    }

-- the punctuators, and a byte that is none
unfoldable pub lex_symbol : SrcLoc → ℕ → Bytes → Pos → Lexed
unfolding lex_punct step_pos skip_bytes
lex_symbol l c cs p = elim (lex_punct c cs) [
  | some (q, k) ↦ symbol l q (skip_bytes k (cs, step_pos c p))
  | none ↦ record { token = none; complaints = stray c ∷ []; rest = (cs, step_pos c p) }
]

-- `lexToken`. It is called only where a byte is at hand.
unfoldable pub lex_token : SrcLoc → ℕ → Bytes → Pos → Lexed
unfolding take_while is_word lex_number lex_string lex_char lex_symbol step_pos isalpha isalnum
    isdigit
lex_token l c cs p =
    let word = take_while (λ d. is_word d || d == b'@') (c ∷ cs) p in
    let number = lex_number l (c ∷ cs, p) in
    if isalpha c || c == b'_' || c == b'@'
    then if c == b'@' && not (at_is 0 b'@' cs)
      then symbol l at_sign (cs, step_pos c p)
      else one (record (blank l) { kind = ident; text = word.0 }) word.1
    else if isdigit c
    then one number.0 number.1
    else if c == b'"'
    then lex_string l cs (step_pos c p)
    else if c == b'\''
    then lex_char l cs (step_pos c p)
    else lex_symbol l c cs p
