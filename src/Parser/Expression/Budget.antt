-- ===== src/Parser/Expression/Budget.antt =====
-- src/parser.cpp: with a unit of fuel for each token, and some for the chain of base classes, an
-- expression is parsed.
use hlang.Base.{
  ℕ, zero, suc, ◌+◌, ◌≤◌, ◌<◌, ◌≡◌, refl, Bool, List, [], ◌∷◌, Bytes, Option, arith, length,
  if-elim, ◌++◌,
}
use hlang.Run.{ok}
use hlang.Token.{Token, Tok, is, star, ◌=tok◌}
use hlang.Ast.{Expr, Ty, ptr, Member, find_member}
use hlang.Parser.{Parser, M, parse_base_type, parse_base_type_no_stars, take_stars, stars}
use hlang.Parser.Budget.{
  Ends, Within, Within-tokens, Within-le, Within-bind, Within-give, take-bind_weak, accept-bind,
  accept-bind_none, within_rules,
}
use hlang.Parser.Sound.{there, Sound, Left, Left-cons, Sound-tail}
use hlang.Parser.Levels.{parse_lor, parse_unary}
use hlang.Parser.Levels.Budget.{parse_lor-Within, parse_unary-Within}
use hlang.Parser.Expression.{
  call_rounds, parse_call_args, Suffix, done, more, resume, parse_member, suffix, postfix_rounds,
  parse_postfix, take_strings, strings, init_rounds, parse_init_list, find, member_type,
  sizeof_member, sizeof_operand, parse_sizeof, parse_offset, parse_name, parse_symbol,
  parse_primary_at, parse_primary, assign_tail, parse_assign,
}

stars-Left :
    (st : Parser) (p : Parser) (ty : Ty) (ts : List Token)
    → Sound st (record p { toks = ts })
    → Left st p (length ts) (stars ty ts).1
unfolding stars
stars-Left st p ty [] s = record { fewer = omega arith; sound = s }
stars-Left st p ty (t ∷ ts) s =
    if-elim (λ (r : Ty × List Token). Left st p (length (t ∷ ts)) r.1) (is star t) _ _
      (λ h. Left-cons st p t ts _ (stars-Left st p (ptr ty) ts (Sound-tail st p t ts s)))
      (λ h. record { fewer = omega arith; sound = s })

strings-Left :
    (st : Parser) (p : Parser) (b : Bytes) (ts : List Token)
    → Sound st (record p { toks = ts })
    → Left st p (length ts) (strings b ts).1
unfolding strings
strings-Left st p b [] s = record { fewer = omega arith; sound = s }
strings-Left st p b (t ∷ ts) s =
    if-elim (λ (r : Bytes × List Token). Left st p (length (t ∷ ts)) r.1) (t.kind =tok Tok.str_lit)
      _ _ (λ h. Left-cons st p t ts _ (strings-Left st p (b ++ t.text) ts (Sound-tail st p t ts s)))
      (λ h. record { fewer = omega arith; sound = s })

module _ {st : Parser} {u : Bool} {b : ℕ} where
  pub take_stars-Within : (ty : Ty) → Within st u 0 b (take_stars ty)
  unfolding take_stars
  take_stars-Within ty = record {
    at = λ p s l. let r = stars-Left st p ty p.toks s in (omega (arith, r.fewer), r.sound);
  }

  pub take_strings-Within : (x : Bytes) → Within st u 0 b (take_strings x)
  unfolding take_strings
  take_strings-Within x = record {
    at = λ p s l. let r = strings-Left st p x p.toks s in (omega (arith, r.fewer), r.sound);
  }

  pub parse_base_type_no_stars-Within : Within st u 0 b parse_base_type_no_stars
  unfolding parse_base_type_no_stars
  parse_base_type_no_stars-Within = search within_rules depth 8

  pub parse_base_type-Within : Within st u 0 b parse_base_type
  unfolding parse_base_type
  parse_base_type-Within =
      search (within_rules, parse_base_type_no_stars-Within, take_stars-Within) depth 8

  parse_member-Within : (e : Expr) → Within st u 0 b (parse_member e)
  unfolding parse_member
  parse_member-Within e = search within_rules depth 9

  parse_offset-Within : Within st u 0 b parse_offset
  unfolding parse_offset
  parse_offset-Within = search within_rules depth 16

-- the loops over arguments, which spend fuel on a comma
module _ {st : Parser} {u : Bool} where
  call_rounds-Within :
      (n : ℕ) (asg : M Expr) → Within st u 0 n asg → Within st u 0 n (call_rounds (suc n) asg)
  unfolding call_rounds
  call_rounds-Within zero asg s = search (accept-bind_none, within_rules) depth 12
  call_rounds-Within (suc n) asg s =
      let ih = call_rounds-Within n asg (Within-le (omega arith) s) in
      search (accept-bind, within_rules) depth 12

  init_rounds-Within :
      (n : ℕ) (asg : M Expr) → Within st u 0 n asg → Within st u 0 n (init_rounds (suc n) asg)
  unfolding init_rounds
  init_rounds-Within zero asg s = search (accept-bind_none, within_rules) depth 12
  init_rounds-Within (suc n) asg s =
      let ih = init_rounds-Within n asg (Within-le (omega arith) s) in
      search (accept-bind, within_rules) depth 12

module _ {st : Parser} {u : Bool} {b : ℕ} (asg : M Expr) (s : Within st u 0 b asg) where
  call_rounds-Within_le : (n : ℕ) → n ≤ b → Within st u 0 n (call_rounds (suc n) asg)
  call_rounds-Within_le n h = call_rounds-Within n asg (Within-le h s)

  init_rounds-Within_le : (n : ℕ) → n ≤ b → Within st u 0 n (init_rounds (suc n) asg)
  init_rounds-Within_le n h = init_rounds-Within n asg (Within-le h s)

  parse_call_args-Within : Within st u 0 b (parse_call_args asg)
  unfolding parse_call_args
  parse_call_args-Within = search (Within-tokens, call_rounds-Within_le, within_rules) depth 9

-- a unit of the budget is for the token in front of each call of `parseAssign`
module _ {st : Parser} {u : Bool} {b : ℕ} (asg : M Expr) (s : Within st u 0 b asg) where
  parse_init_list-Within : Within st u 0 (suc b) (parse_init_list asg)
  unfolding parse_init_list
  parse_init_list-Within =
      search (take-bind_weak, Within-tokens, init_rounds-Within_le asg s, within_rules) depth 16

  suffix-Within : (e : Expr) → Within st u 0 (suc b) (suffix asg e)
  unfolding suffix
  suffix-Within e =
      let args = parse_call_args-Within asg s in
      search (take-bind_weak, parse_base_type-Within, parse_member-Within, within_rules) depth 30
        fits 20000

  resume-Within :
      (k : Expr → M Expr) (r : Suffix)
      → ((e : Expr) → Within st u 0 (suc b) (k e))
      → Within st u 0 (suc b) (resume k r)
  resume-Within k (done e) h = Within-give e
  resume-Within k (more e) h = h e

  postfix_rounds-Within : (n : ℕ) (e : Expr) → Within st u 0 (suc b) (postfix_rounds n asg e)
  unfolding postfix_rounds
  postfix_rounds-Within zero e = search within_rules
  postfix_rounds-Within (suc n) e =
      let ih = λ (e' : Expr). postfix_rounds-Within n e' in
      search (suffix-Within, resume-Within, ih, within_rules) depth 9

  parse_postfix-Within :
      (prim : M Expr) → Within st u 0 (suc b) prim → Within st u 0 (suc b) (parse_postfix prim asg)
  unfolding parse_postfix
  parse_postfix-Within prim h = search (postfix_rounds-Within, within_rules) depth 8

  assign_tail-Within : (e : Expr) → Within st u 0 (suc b) (assign_tail asg e)
  unfolding assign_tail
  assign_tail-Within e = search (take-bind_weak, within_rules) depth 24

  parse_symbol-Within : (t : Token) → Within st u 0 (suc b) (parse_symbol asg t)
  unfolding parse_symbol
  parse_symbol-Within t = search (take-bind_weak, parse_init_list-Within, within_rules) depth 24

-- Fuel of `d` units is enough for the chain of bases of every class.
abbrev pub Finds : Parser → ℕ → Type 0
Finds st d =
    (f k : ℕ) (n : Bytes) → d ≤ f → (m : Option Member) × (find_member f st.store k n ≡ ok m)

module _ {st : Parser} {u : Bool} {d : ℕ} (finds : Finds st d) where
  find-Within : {b : ℕ} (f k : ℕ) (n : Bytes) → d ≤ f → Within st u 0 b (find f k n)
  unfolding find
  find-Within f k n le = record {
    at = λ p s l.
        let (m, e) = finds f k n le in
        let e' : find_member f p.store k n ≡ ok m = rw s.store e in rw e' (omega arith, s);
  }

  member_type-Within :
      {b : ℕ} (f : ℕ) (kw : Token) (k : ℕ) (n : Bytes)
      → d ≤ f
      → Within st u 0 b (member_type f kw k n)
  unfolding member_type
  member_type-Within f kw k n le = search (find-Within, within_rules) depth 8

  sizeof_member-Within :
      {b : ℕ} (f : ℕ) (kw : Token) (k : ℕ) → d ≤ f → Within st u 0 b (sizeof_member f kw k)
  unfolding sizeof_member
  sizeof_member-Within f kw k le = search (member_type-Within, within_rules) depth 12

module _ {st : Parser} {u : Bool} {b d f : ℕ} (finds : Finds st d) (le : d ≤ f) (asg : M Expr)
    (s : Within st u 0 b asg) where
  sizeof_operand-Within : (kw : Token) → Within st u 0 b (sizeof_operand f asg kw)
  unfolding sizeof_operand
  sizeof_operand-Within kw =
      let dotted : (k : ℕ) → Within st u 0 b (sizeof_member f kw k) =
        λ k. sizeof_member-Within finds f kw k le in
      search (parse_base_type-Within, within_rules) depth 24

  parse_sizeof-Within : Within st u 0 (suc b) (parse_sizeof f asg)
  unfolding parse_sizeof
  parse_sizeof-Within = search (take-bind_weak, sizeof_operand-Within, within_rules) depth 10

  parse_name-Within : (t : Token) → Within st u 0 (suc b) (parse_name f asg t)
  unfolding parse_name
  parse_name-Within t = search (parse_sizeof-Within, parse_offset-Within, within_rules) depth 12

  parse_primary_at-Within :
      (k : Tok) (t : Token) → Within st u 0 (suc b) (parse_primary_at f asg k t)
  unfolding parse_primary_at
  parse_primary_at-Within Tok.int_lit t = search within_rules
  parse_primary_at-Within Tok.float_lit t = search within_rules
  parse_primary_at-Within Tok.char_lit t = search within_rules
  parse_primary_at-Within Tok.str_lit t = search (take_strings-Within, within_rules)
  parse_primary_at-Within Tok.ident t = parse_name-Within t
  parse_primary_at-Within Tok.punct t = parse_symbol-Within asg s t
  parse_primary_at-Within Tok.eof t = search within_rules

  parse_primary-Within : Within st u 0 (suc b) (parse_primary f asg)
  unfolding parse_primary
  parse_primary-Within = search (parse_primary_at-Within, within_rules)

-- at the end of the file nothing is taken
parse_assign-Ends_empty :
    (st : Parser) (u : Bool) (f : ℕ) (p : Parser) (ts : List Token)
    → length ts ≤ 0
    → Sound st (record p { toks = ts })
    → Ends st u 0 (length ts) (parse_assign (suc f) (record p { toks = ts }))
unfolding parse_assign parse_lor parse_unary parse_postfix parse_primary assign_tail
parse_assign-Ends_empty st u f p [] h s =
    (omega arith, record { store = s.store; classes = s.classes; log = there s.log; tokens = refl })
parse_assign-Ends_empty st u f p (t ∷ ts) h s = absurd (omega (arith, h))

pub parse_assign-Within :
    {st : Parser} {u : Bool} {d : ℕ} (f b : ℕ)
    → Finds st d
    → b + d < f
    → Within st u 0 b (parse_assign f)
unfolding parse_assign
parse_assign-Within zero b finds lt = absurd (omega (arith, lt))
parse_assign-Within {st} {u} (suc f) zero finds lt = record {
  at = λ p s l. parse_assign-Ends_empty st u f p p.toks l s;
}
parse_assign-Within {st = st} {u = u} {d = d} (suc f) (suc b) finds lt =
    let asg = parse_assign f in
    let enough : d ≤ suc f = omega (arith, lt) in
    let less : b + d < f = omega (arith, lt) in
    let ih : Within st u 0 b asg = parse_assign-Within {u = u} f b finds less in
    let prim = parse_primary-Within {f = suc f} finds enough asg ih in
    let prefixed = parse_unary-Within _ (parse_postfix-Within asg ih _ prim) in
    Within-bind _ _ (parse_lor-Within _ prefixed) (assign_tail-Within asg ih)
