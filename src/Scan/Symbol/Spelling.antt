-- ===== src/Scan/Symbol/Spelling.antt =====
-- The spelling of a punctuator is read back as that punctuator.
use hlang.Base.{
  ℕ, Bool, true, false, ◌||◌, [], ◌∷◌, ◌++◌, ◌≡◌, ◌≢◌, refl, ◌==◌, if◌then◌else◌, Bytes, Option,
  none, some, arith, append-nil, drop,
}
use hlang.Token.{
  Punct, no_punct, at_sign, l_paren, r_paren, l_bracket, r_bracket, l_brace, r_brace, comma, semi,
  colon, colon_colon, dot, ellipsis, arrow, plus, minus, star, slash, percent, pow, amp, pipe,
  caret, shl, shr, tilde, bang, and_and, or_or, xor_xor, lt, gt, le, ge, eq_eq, ne, assign, plus_eq,
  minus_eq, star_eq, slash_eq, percent_eq, shl_eq, shr_eq, amp_eq, pipe_eq, caret_eq, plus_plus,
  minus_minus, dollar, question,
}
use hlang.Token.Spelling.{punct_str}
use hlang.Scan.Symbol.{lex_punct}

-- a byte that can continue a punctuator
abbrev continues : ℕ → Bool
continues c =
    c == b':'
    || c == b'.'
    || c == b'+'
    || c == b'='
    || c == b'-'
    || c == b'>'
    || c == b'&'
    || c == b'|'
    || c == b'^'
    || c == b'<'

-- The bytes do not begin with such a byte.
abbrev pub ends : Bytes → Bool
ends [] = true
ends (c ∷ cs) = if continues c then false else true

-- Reading the first of some bytes, and what the rest of them are.
abbrev pub read_punct : Bytes → Option (Punct × Bytes)
read_punct [] = none
read_punct (c ∷ cs) = elim (lex_punct c cs) [ none ↦ none | some (p, k) ↦ some (p, drop k cs) ]

read-punct_str_end :
    (p : Punct) → p ≢ no_punct → p ≢ at_sign → read_punct (punct_str p) ≡ some (p, [])
unfolding punct_str lex_punct
read-punct_str_end no_punct a b = absurd (a refl)
read-punct_str_end l_paren a b = refl
read-punct_str_end r_paren a b = refl
read-punct_str_end l_bracket a b = refl
read-punct_str_end r_bracket a b = refl
read-punct_str_end l_brace a b = refl
read-punct_str_end r_brace a b = refl
read-punct_str_end comma a b = refl
read-punct_str_end semi a b = refl
read-punct_str_end colon a b = refl
read-punct_str_end colon_colon a b = refl
read-punct_str_end dot a b = refl
read-punct_str_end ellipsis a b = refl
read-punct_str_end arrow a b = refl
read-punct_str_end plus a b = refl
read-punct_str_end minus a b = refl
read-punct_str_end star a b = refl
read-punct_str_end slash a b = refl
read-punct_str_end percent a b = refl
read-punct_str_end pow a b = refl
read-punct_str_end amp a b = refl
read-punct_str_end pipe a b = refl
read-punct_str_end caret a b = refl
read-punct_str_end shl a b = refl
read-punct_str_end shr a b = refl
read-punct_str_end tilde a b = refl
read-punct_str_end bang a b = refl
read-punct_str_end and_and a b = refl
read-punct_str_end or_or a b = refl
read-punct_str_end xor_xor a b = refl
read-punct_str_end lt a b = refl
read-punct_str_end gt a b = refl
read-punct_str_end le a b = refl
read-punct_str_end ge a b = refl
read-punct_str_end eq_eq a b = refl
read-punct_str_end ne a b = refl
read-punct_str_end assign a b = refl
read-punct_str_end plus_eq a b = refl
read-punct_str_end minus_eq a b = refl
read-punct_str_end star_eq a b = refl
read-punct_str_end slash_eq a b = refl
read-punct_str_end percent_eq a b = refl
read-punct_str_end shl_eq a b = refl
read-punct_str_end shr_eq a b = refl
read-punct_str_end amp_eq a b = refl
read-punct_str_end pipe_eq a b = refl
read-punct_str_end caret_eq a b = refl
read-punct_str_end plus_plus a b = refl
read-punct_str_end minus_minus a b = refl
read-punct_str_end dollar a b = refl
read-punct_str_end at_sign a b = absurd (b refl)
read-punct_str_end question a b = refl

read-punct_str_next :
    (p : Punct) (c : ℕ) (cs : Bytes)
    → p ≢ no_punct
    → p ≢ at_sign
    → continues c ≡ false
    → read_punct (punct_str p ++ c ∷ cs) ≡ some (p, c ∷ cs)
unfolding punct_str lex_punct
read-punct_str_next no_punct c cs a b h = absurd (a refl)
read-punct_str_next l_paren c cs a b h = refl
read-punct_str_next r_paren c cs a b h = refl
read-punct_str_next l_bracket c cs a b h = refl
read-punct_str_next r_bracket c cs a b h = refl
read-punct_str_next l_brace c cs a b h = refl
read-punct_str_next r_brace c cs a b h = refl
read-punct_str_next comma c cs a b h = refl
read-punct_str_next semi c cs a b h = refl
read-punct_str_next colon c cs a b h = ground arith
read-punct_str_next colon_colon c cs a b h = refl
read-punct_str_next dot c cs a b h = ground arith
read-punct_str_next ellipsis c cs a b h = refl
read-punct_str_next arrow c cs a b h = refl
read-punct_str_next plus c cs a b h = ground arith
read-punct_str_next minus c cs a b h = ground arith
read-punct_str_next star c cs a b h = ground arith
read-punct_str_next slash c cs a b h = ground arith
read-punct_str_next percent c cs a b h = ground arith
read-punct_str_next pow c cs a b h = refl
read-punct_str_next amp c cs a b h = ground arith
read-punct_str_next pipe c cs a b h = ground arith
read-punct_str_next caret c cs a b h = ground arith
read-punct_str_next shl c cs a b h = ground arith
read-punct_str_next shr c cs a b h = ground arith
read-punct_str_next tilde c cs a b h = refl
read-punct_str_next bang c cs a b h = ground arith
read-punct_str_next and_and c cs a b h = refl
read-punct_str_next or_or c cs a b h = refl
read-punct_str_next xor_xor c cs a b h = refl
read-punct_str_next lt c cs a b h = ground arith
read-punct_str_next gt c cs a b h = ground arith
read-punct_str_next le c cs a b h = refl
read-punct_str_next ge c cs a b h = refl
read-punct_str_next eq_eq c cs a b h = refl
read-punct_str_next ne c cs a b h = refl
read-punct_str_next assign c cs a b h = ground arith
read-punct_str_next plus_eq c cs a b h = refl
read-punct_str_next minus_eq c cs a b h = refl
read-punct_str_next star_eq c cs a b h = refl
read-punct_str_next slash_eq c cs a b h = refl
read-punct_str_next percent_eq c cs a b h = refl
read-punct_str_next shl_eq c cs a b h = refl
read-punct_str_next shr_eq c cs a b h = refl
read-punct_str_next amp_eq c cs a b h = refl
read-punct_str_next pipe_eq c cs a b h = refl
read-punct_str_next caret_eq c cs a b h = refl
read-punct_str_next plus_plus c cs a b h = refl
read-punct_str_next minus_minus c cs a b h = refl
read-punct_str_next dollar c cs a b h = refl
read-punct_str_next at_sign c cs a b h = absurd (b refl)
read-punct_str_next question c cs a b h = refl

-- Every punctuator but `@`, spelled by `punct_str` and followed by bytes that do not continue a
-- punctuator, is read as itself, and those bytes are left.
pub read-punct_str :
    (p : Punct) (rest : Bytes)
    → p ≢ no_punct
    → p ≢ at_sign
    → ends rest ≡ true
    → read_punct (punct_str p ++ rest) ≡ some (p, rest)
read-punct_str p [] a b e = rw append-nil (read-punct_str_end p a b)
read-punct_str p (c ∷ cs) a b e = read-punct_str_next p c cs a b (ground arith)
