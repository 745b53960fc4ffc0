-- ===== src/Parser/Casts.antt =====
-- src/parser.cpp: what the lookahead `looksLikeCast` promises `parseBaseType`.
use hlang.Base.{◌≡◌, refl, ap, ◌∙◌, true, List, [], ◌∷◌, some, arith, Option-cases, inl, inr}
use hlang.Run.{ok}
use hlang.Token.{Token, is, r_paren}
use hlang.Ast.{Ty, ptr}
use hlang.Parser.{
  Parser, tok, at, take, base_type_for, is_type_name, stars, behind_stars, looks_like_cast,
  parse_base_type, parse_base_type_no_stars,
}

stars-behind : (ty : Ty) (ts : List Token) → (stars ty ts).1 ≡ behind_stars ts
unfolding stars behind_stars
stars-behind ty [] = refl
stars-behind ty (t ∷ ts) = ground (arith, stars-behind (ptr ty) ts)

at-cons :
    (p : Parser) (ts : List Token)
    → at r_paren 0 (record p { toks = ts }) ≡ true
    → (r : Token) × (more : List Token) × (ts ≡ r ∷ more) × (is r_paren r ≡ true)
unfolding at tok
at-cons p [] h = absurd (ground (arith, h))
at-cons p (r ∷ more) h = (r, more, refl, h)

base_type_for-is_type_name :
    (t : Token) (p : Parser)
    → is_type_name t p ≡ true
    → (ty : Ty) × (base_type_for t.text p ≡ some ty)
unfolding is_type_name
base_type_for-is_type_name t p h = elim (Option-cases (base_type_for t.text p)) [
  | inl e ↦ absurd (ground (arith, e, h))
  | inr r ↦ r
]

-- a known name, and what lies behind its stars
parse_base_type-known :
    (p : Parser) (t : Token) (ts : List Token)
    → (ty : Ty) × (base_type_for t.text p ≡ some ty)
    → (r : Token) × (more : List Token) × (behind_stars ts ≡ r ∷ more) × (is r_paren r ≡ true)
    → (ty : Ty) × (r : Token) × (more : List Token) × (is r_paren r ≡ true)
      × (parse_base_type (record p { toks = t ∷ ts }) ≡ ok (ty, record p { toks = r ∷ more }))
unfolding parse_base_type parse_base_type_no_stars take tok base_type_for
parse_base_type-known p t ts (ty, found) (r, more, left, closing) = (
  (stars ty ts).0,
  r,
  more,
  closing,
  rw found (
      ap (λ (x : List Token). ok ((stars ty ts).0, record p { toks = x }))
        (stars-behind ty ts ∙ left)),
)

-- Where `looksLikeCast` says that a cast follows, `parseBaseType` behind the parenthesis gives a type
-- with no error, and stops at the closing parenthesis.
pub parse_base_type-looks_like_cast :
    (p : Parser) (l t : Token) (ts : List Token)
    → looks_like_cast (record p { toks = l ∷ t ∷ ts }) ≡ true
    → (ty : Ty) × (r : Token) × (more : List Token) × (is r_paren r ≡ true)
      × (parse_base_type (record p { toks = t ∷ ts }) ≡ ok (ty, record p { toks = r ∷ more }))
unfolding looks_like_cast base_type_for
parse_base_type-looks_like_cast p l t ts h =
    let q = record p { toks = l ∷ t ∷ ts } in
    parse_base_type-known p t ts (base_type_for-is_type_name t q (ground (arith, h)))
      (at-cons q (behind_stars ts) (ground (arith, h)))
