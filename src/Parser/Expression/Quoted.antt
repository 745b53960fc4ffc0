-- ===== src/Parser/Expression/Quoted.antt =====
-- src/parser.cpp: `sizeof` of a string literal that spells the name of a class.
use hlang.Base.{ℕ, ◌≡◌, refl, List, ◌∷◌, Bytes, none, some, codes}
use hlang.Run.{ok}
use hlang.Token.{Token, Tok, SrcLoc, blank, l_paren, r_paren}
use hlang.Ast.{Expr, class, sizeof_type}
use hlang.Parser.{Parser, M, builtin_type, find_class}
use hlang.Parser.Expression.{parse_sizeof}

module _ (l : SrcLoc) where
  abbrev pub keyword : Token
  keyword = record (blank l) { kind = Tok.ident; text = codes "sizeof" }

  abbrev pub quoted : Bytes → Token
  quoted s = record (blank l) { kind = Tok.str_lit; text = s }

  abbrev pub opening : Token
  opening = record (blank l) { kind = Tok.punct; punct = l_paren }

  abbrev pub closing : Token
  closing = record (blank l) { kind = Tok.punct; punct = r_paren }

  -- Where a name that is no builtin type is the name of a class, sizeof of a string literal that
  -- spells it is the size of the class: no error is reported, and the tokens behind are left.
  pub parse_sizeof-quoted :
      (f : ℕ) (asg : M Expr) (p : Parser) (s : Bytes) (k : ℕ) (ts : List Token)
      → builtin_type s ≡ none
      → find_class s p ≡ some k
      → parse_sizeof f asg (record p { toks = keyword ∷ opening ∷ quoted s ∷ closing ∷ ts })
        ≡ ok (sizeof_type l (class k), record p { toks = ts })
  unfolding parse_sizeof find_class
  parse_sizeof-quoted f asg p s k ts b c = rw (c, b, c) refl
