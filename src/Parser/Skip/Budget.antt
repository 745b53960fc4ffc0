-- ===== src/Parser/Skip/Budget.antt =====
-- src/parser.cpp: the loops that pass over tokens leave a part of them.
use hlang.Base.{ℕ, ◌+◌, ◌-◌, Bool, ◌&&◌, List, [], ◌∷◌, arith, length, if-elim, ◌==◌, if◌then◌else◌}
use hlang.Base.Int.{ℤ, pos, negsuc}
use hlang.Token.{Token, is, semi, l_brace, r_brace, l_paren, r_paren}
use hlang.Parser.{Parser}
use hlang.Parser.Budget.{Within, within_rules}
use hlang.Parser.Sound.{Sound, Left, Left-cons, Left-all, Sound-tail}
use hlang.Parser.Skip.{
  up, down, outermost, behind_semi, skip_to_semi, behind_braces, skip_braces, skip_brace_block,
  behind_parens, skip_to_paren_end,
}

module _ (st : Parser) (p : Parser) where
  behind_semi-Left :
      (d : ℤ) (ts : List Token)
      → Sound st (record p { toks = ts })
      → Left st p (length ts) (behind_semi d ts)
  unfolding behind_semi
  behind_semi-Left d [] s = Left-all st p [] s
  behind_semi-Left d (t ∷ ts) s =
      let inside = if is l_brace t then up d else if is r_brace t then down d else d in
      let tail = Sound-tail st p t ts s in
      if-elim (Left st p (length (t ∷ ts))) (is semi t && outermost inside) _ _
        (λ h. Left-cons st p t ts ts (Left-all st p ts tail))
        (λ h. Left-cons st p t ts _ (behind_semi-Left inside ts tail))

  behind_braces-Left :
      (d : ℤ) (ts : List Token)
      → Sound st (record p { toks = ts })
      → Left st p (length ts) (behind_braces d ts)
  unfolding behind_braces
  behind_braces-Left d [] s = Left-all st p [] s
  behind_braces-Left d (t ∷ ts) s =
      let tail = Sound-tail st p t ts s in
      let more = λ (e : ℤ). Left-cons st p t ts _ (behind_braces-Left e ts tail) in
      if-elim (Left st p (length (t ∷ ts))) (is l_brace t) _ _ (λ h. more (up d))
        λ h.
          if-elim (Left st p (length (t ∷ ts))) (is r_brace t) _ _
            (λ h.
              elim (down d)
                as (λ (e : ℤ). Left st p (length (t ∷ ts)) (elim e [
                  | pos n ↦ if n == 0 then ts else behind_braces (pos n) ts
                  | negsuc n ↦ behind_braces (negsuc n) ts
                ])) [
                  | pos n ↦
                      if-elim (Left st p (length (t ∷ ts))) (n == 0) _ _
                        (λ h. Left-cons st p t ts ts (Left-all st p ts tail)) (λ h. more (pos n))
                  | negsuc n ↦ more (negsuc n)
                ])
            (λ h. more d)

  behind_parens-Left :
      (d : ℕ) (ts : List Token)
      → Sound st (record p { toks = ts })
      → Left st p (length ts) (behind_parens d ts)
  unfolding behind_parens
  behind_parens-Left d [] s = Left-all st p [] s
  behind_parens-Left d (t ∷ ts) s =
      let tail = Sound-tail st p t ts s in
      let more = λ (e : ℕ). Left-cons st p t ts _ (behind_parens-Left e ts tail) in
      if-elim (Left st p (length (t ∷ ts))) (is l_paren t) _ _ (λ h. more (d + 1))
        λ h.
          if-elim (Left st p (length (t ∷ ts))) (is r_paren t) _ _
            (λ h.
              if-elim (Left st p (length (t ∷ ts))) (d == 1) _ _
                (λ h. Left-cons st p t ts ts (Left-all st p ts tail)) (λ h. more (d - 1)))
            (λ h. more d)

module _ {st : Parser} {u : Bool} {b : ℕ} where
  pub skip_to_semi-Within : Within st u 0 b skip_to_semi
  unfolding skip_to_semi
  skip_to_semi-Within = record {
    at = λ p s l.
        let r = behind_semi-Left st p (pos 0) p.toks s in (omega (arith, r.fewer), r.sound);
  }

  pub skip_to_paren_end-Within : Within st u 0 b skip_to_paren_end
  unfolding skip_to_paren_end
  skip_to_paren_end-Within = record {
    at = λ p s l. let r = behind_parens-Left st p 1 p.toks s in (omega (arith, r.fewer), r.sound);
  }

  skip_braces-Within : Within st u 0 b skip_braces
  unfolding skip_braces
  skip_braces-Within = record {
    at = λ p s l.
        let r = behind_braces-Left st p (pos 0) p.toks s in (omega (arith, r.fewer), r.sound);
  }

  pub skip_brace_block-Within : Within st u 0 b skip_brace_block
  unfolding skip_brace_block
  skip_brace_block-Within = search (skip_braces-Within, skip_to_semi-Within, within_rules)
