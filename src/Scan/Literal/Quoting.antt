-- ===== src/Scan/Literal/Quoting.antt =====
-- Every byte string can be written as a literal.
use hlang.Base.{
  ℕ, zero, suc, ◌<◌, ◌≡◌, ap, ◌∙◌, Bool, true, false, ◌||◌, [], ◌∷◌, ◌++◌, if◌then◌else◌, Bytes,
  arith, ◌==◌, length, length-append, ==_refl, ==_iff, if-elim,
}
use hlang.Scan.{Pos, step_pos, advance}
use hlang.Scan.Literal.{Chars, push, stop, escape_byte, chars_loop, lex_chars}

-- How a byte is written between two quotes: a backslash or the quote behind a backslash, a dollar
-- twice, any other byte as it is.
abbrev pub write_byte : ℕ → ℕ → Bytes
write_byte q c =
    if c == b'\\' || c == q then b'\\' ∷ c ∷ [] else if c == b'$' then b'$' ∷ b'$' ∷ [] else c ∷ []

abbrev pub write_bytes : ℕ → Bytes → Bytes
write_bytes q [] = []
write_bytes q (c ∷ cs) = write_byte q c ++ write_bytes q cs

-- the two quotes of the language
abbrev pub is_quote : ℕ → Bool
is_quote q = q == b'"' || q == b'\''

pub chars_loop-plain :
    (n q c : ℕ) (cs : Bytes) (p : Pos)
    → (c == q) ≡ false
    → (c == b'$') ≡ false
    → (c == b'\\') ≡ false
    → chars_loop (suc n) q (c ∷ cs) p ≡ push c (chars_loop n q cs (step_pos c p))
unfolding chars_loop
chars_loop-plain n q c [] p a b d = rw (a, d)
chars_loop-plain n q c (e ∷ cs) p a b d = rw (a, b, d)

-- what the two quotes, and the bytes written behind a backslash, are not
pub quote_facts : (q : ℕ) → is_quote q ≡ true → ((b'\\' == q) ≡ false) × ((b'$' == q) ≡ false)
quote_facts q h = ground arith

escaped_facts :
    (q e : ℕ)
    → is_quote q ≡ true
    → (e == b'\\' || e == q) ≡ true
    → ((e == b'x') ≡ false) × (escape_byte e ≡ e)
unfolding escape_byte
escaped_facts q e hq he = ground arith

pub chars_loop-escape :
    (n q e : ℕ) (cs : Bytes) (p : Pos)
    → is_quote q ≡ true
    → (e == b'\\' || e == q) ≡ true
    → chars_loop (suc n) q (b'\\' ∷ e ∷ cs) p
      ≡ push e (chars_loop n q cs (step_pos e (step_pos b'\\' p)))
unfolding chars_loop
chars_loop-escape n q e cs p hq he =
    rw ((quote_facts q hq).0, (escaped_facts q e hq he).0, (escaped_facts q e hq he).1)

chars_loop-dollar :
    (n q : ℕ) (cs : Bytes) (p : Pos)
    → is_quote q ≡ true
    → chars_loop (suc n) q (b'$' ∷ b'$' ∷ cs) p
      ≡ push b'$' (chars_loop n q cs (step_pos b'$' (step_pos b'$' p)))
unfolding chars_loop
chars_loop-dollar n q cs p hq = rw (quote_facts q hq).1

pub chars_loop-close :
    (n q : ℕ) (cs : Bytes) (p : Pos) → chars_loop (suc n) q (q ∷ cs) p ≡ stop [] (cs, step_pos q p)
unfolding chars_loop
chars_loop-close n q [] p = rw (==_refl q)
chars_loop-close n q (c ∷ cs) p = rw (==_refl q)

-- the outcome for a text whose literal is written from a position
abbrev decoded : ℕ → Bytes → Bytes → Pos → Chars
decoded q s rest p = record {
  text = s;
  faults = [];
  rest = (rest, advance (write_bytes q s ++ q ∷ []) p);
}

-- The first byte of the text is written as `x`, and the others are decoded behind it.
abbrev Decodes : ℕ → ℕ → Bytes → Bytes → ℕ → Pos → Bytes → Type 0
Decodes q c s rest n p x = chars_loop n q ((x ++ write_bytes q s) ++ q ∷ rest) p ≡ record {
  text = c ∷ s;
  faults = [];
  rest = (rest, advance ((x ++ write_bytes q s) ++ q ∷ []) p);
}

-- and what each of the three ways to write a byte adds to its length
shorter :
    (q c n : ℕ) (s : Bytes) → length (write_bytes q (c ∷ s)) < suc n → length (write_bytes q s) < n
shorter q c n s lt =
    if-elim (λ x. length (x ++ write_bytes q s) < suc n → length (write_bytes q s) < n)
      (c == b'\\' || c == q) _ _ (λ h l. omega arith)
      (λ h.
        if-elim (λ x. length (x ++ write_bytes q s) < suc n → length (write_bytes q s) < n)
          (c == b'$') _ _ (λ h l. omega arith) (λ h l. omega arith))
      lt

chars_loop-write :
    (q : ℕ) (s rest : Bytes) (n : ℕ) (p : Pos)
    → is_quote q ≡ true
    → length (write_bytes q s) < n
    → chars_loop n q (write_bytes q s ++ q ∷ rest) p ≡ decoded q s rest p
unfolding advance
chars_loop-write q s rest zero p hq lt = absurd (omega arith)
chars_loop-write q [] rest (suc n) p hq lt = chars_loop-close n q rest p
chars_loop-write q (c ∷ s) rest (suc n) p hq lt =
    let ih = λ (r : Pos). chars_loop-write q s rest n r hq (shorter q c n s lt) in
    let tail = write_bytes q s ++ q ∷ rest in
    if-elim (Decodes q c s rest (suc n) p) (c == b'\\' || c == q) _ _
      (λ h. chars_loop-escape n q c tail p hq h ∙ ap (push c) (ih (step_pos c (step_pos b'\\' p))))
      λ h.
        if-elim (Decodes q c s rest (suc n) p) (c == b'$') _ _
          (λ d. rw ((==_iff c b'$').0 d) (
            chars_loop-dollar n q tail p hq
            ∙ ap (push b'$') (ih (step_pos b'$' (step_pos b'$' p)))))
          (λ d.
            chars_loop-plain n q c tail p (ground (arith, h)) d (ground (arith, h))
            ∙ ap (push c) (ih (step_pos c p)))

-- A text of any bytes, written between two quotes, is decoded to itself: no fault is reported, the
-- input behind the closing quote is left, and the position has moved over all that was read.
pub lex_chars-write :
    (q : ℕ) (s rest : Bytes) (p : Pos)
    → is_quote q ≡ true
    → lex_chars q (write_bytes q s ++ q ∷ rest) p
      ≡ record { text = s; faults = []; rest = (rest, advance (write_bytes q s ++ q ∷ []) p) }
unfolding lex_chars
lex_chars-write q s rest p hq =
    chars_loop-write q s rest _ p hq (omega (arith, length-append (write_bytes q s) (q ∷ rest)))
