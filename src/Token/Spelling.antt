-- ===== src/Token/Spelling.antt =====
-- src/lexer.cpp: `punctStr`, the spelling of each punctuator.
use hlang.Base.{Bytes, codes}
use hlang.Token.{
  Punct, no_punct, l_paren, r_paren, l_bracket, r_bracket, l_brace, r_brace, comma, semi, colon,
  colon_colon, dot, ellipsis, arrow, plus, minus, star, slash, percent, pow, amp, pipe, caret, shl,
  shr, tilde, bang, and_and, or_or, xor_xor, lt, gt, le, ge, eq_eq, ne, assign, plus_eq, minus_eq,
  star_eq, slash_eq, percent_eq, shl_eq, shr_eq, amp_eq, pipe_eq, caret_eq, plus_plus, minus_minus,
  dollar, at_sign, question,
}

-- `punctStr`
unfoldable pub punct_str : Punct → Bytes
punct_str no_punct = codes "<none>"
punct_str l_paren = codes "("
punct_str r_paren = codes ")"
punct_str l_bracket = codes "["
punct_str r_bracket = codes "]"
punct_str l_brace = codes "{"
punct_str r_brace = codes "}"
punct_str comma = codes ","
punct_str semi = codes ";"
punct_str colon = codes ":"
punct_str colon_colon = codes "::"
punct_str dot = codes "."
punct_str ellipsis = codes "..."
punct_str arrow = codes "->"
punct_str plus = codes "+"
punct_str minus = codes "-"
punct_str star = codes "*"
punct_str slash = codes "/"
punct_str percent = codes "%"
punct_str pow = codes "`"
punct_str amp = codes "&"
punct_str pipe = codes "|"
punct_str caret = codes "^"
punct_str shl = codes "<<"
punct_str shr = codes ">>"
punct_str tilde = codes "~"
punct_str bang = codes "!"
punct_str and_and = codes "&&"
punct_str or_or = codes "||"
punct_str xor_xor = codes "^^"
punct_str lt = codes "<"
punct_str gt = codes ">"
punct_str le = codes "<="
punct_str ge = codes ">="
punct_str eq_eq = codes "=="
punct_str ne = codes "!="
punct_str assign = codes "="
punct_str plus_eq = codes "+="
punct_str minus_eq = codes "-="
punct_str star_eq = codes "*="
punct_str slash_eq = codes "/="
punct_str percent_eq = codes "%="
punct_str shl_eq = codes "<<="
punct_str shr_eq = codes ">>="
punct_str amp_eq = codes "&="
punct_str pipe_eq = codes "|="
punct_str caret_eq = codes "^="
punct_str plus_plus = codes "++"
punct_str minus_minus = codes "--"
punct_str dollar = codes "$"
punct_str at_sign = codes "@"
punct_str question = codes "?"
