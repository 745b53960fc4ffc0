-- ===== src/Token.antt =====
-- src/lexer.hpp: the kinds of token, the punctuators, source locations and tokens.
pub mod Spelling
use hlang.Base.{ℕ, Bool, true, false, ◌&&◌, List, [], ◌∷◌, Bytes, bytes_eq, ◌==◌}
use hlang.Base.Int.{ℤ, pos}

-- `enum class Tok`
pub data Tok : Type 0 where
  eof ident int_lit float_lit str_lit char_lit punct : Tok

-- `enum class P`
pub data Punct : Type 0 where
  no_punct l_paren r_paren l_bracket r_bracket l_brace r_brace : Punct
  comma semi colon colon_colon dot ellipsis arrow : Punct
  plus minus star slash percent pow amp pipe caret shl shr tilde bang : Punct
  and_and or_or xor_xor lt gt le ge eq_eq ne : Punct
  assign plus_eq minus_eq star_eq slash_eq percent_eq shl_eq shr_eq : Punct
  amp_eq pipe_eq caret_eq plus_plus minus_minus dollar at_sign question : Punct

-- The values of the enumerators, by which C++ compares them.
abbrev pub tok_index : Tok → ℕ
tok_index eof = 0
tok_index ident = 1
tok_index int_lit = 2
tok_index float_lit = 3
tok_index str_lit = 4
tok_index char_lit = 5
tok_index punct = 6

abbrev pub punct_index : Punct → ℕ
punct_index no_punct = 0
punct_index l_paren = 1
punct_index r_paren = 2
punct_index l_bracket = 3
punct_index r_bracket = 4
punct_index l_brace = 5
punct_index r_brace = 6
punct_index comma = 7
punct_index semi = 8
punct_index colon = 9
punct_index colon_colon = 10
punct_index dot = 11
punct_index ellipsis = 12
punct_index arrow = 13
punct_index plus = 14
punct_index minus = 15
punct_index star = 16
punct_index slash = 17
punct_index percent = 18
punct_index pow = 19
punct_index amp = 20
punct_index pipe = 21
punct_index caret = 22
punct_index shl = 23
punct_index shr = 24
punct_index tilde = 25
punct_index bang = 26
punct_index and_and = 27
punct_index or_or = 28
punct_index xor_xor = 29
punct_index lt = 30
punct_index gt = 31
punct_index le = 32
punct_index ge = 33
punct_index eq_eq = 34
punct_index ne = 35
punct_index assign = 36
punct_index plus_eq = 37
punct_index minus_eq = 38
punct_index star_eq = 39
punct_index slash_eq = 40
punct_index percent_eq = 41
punct_index shl_eq = 42
punct_index shr_eq = 43
punct_index amp_eq = 44
punct_index pipe_eq = 45
punct_index caret_eq = 46
punct_index plus_plus = 47
punct_index minus_minus = 48
punct_index dollar = 49
punct_index at_sign = 50
punct_index question = 51

infix 50 ◌=tok◌
abbrev pub ◌=tok◌ : Tok → Tok → Bool
a =tok b = tok_index a == tok_index b

abbrev pub punct_eq : Punct → Punct → Bool
punct_eq a b = punct_index a == punct_index b

pub record SrcLoc : Type 0 where
  pub file : Bytes
  pub line : ℕ
  pub col : ℕ

-- A `double` is kept as the spelling that `strtod` is given; `fval` is that text.
pub record Token : Type 0 where
  pub kind : Tok
  pub punct : Punct
  pub text : Bytes
  pub ival : ℤ
  pub fval : Bytes
  pub loc : SrcLoc
  pub no_expand : Bool

-- `Token t; t.loc = l;`
abbrev pub blank : SrcLoc → Token
blank l = record {
  kind = eof;
  punct = no_punct;
  text = [];
  ival = pos 0;
  fval = [];
  loc = l;
  no_expand = false;
}

-- `Token::is` and the test of an identifier's name
unfoldable pub is : Punct → Token → Bool
is p t = t.kind =tok Tok.punct && punct_eq t.punct p

unfoldable pub is_ident : Bytes → Token → Bool
unfolding bytes_eq
is_ident s t = t.kind =tok ident && bytes_eq t.text s
