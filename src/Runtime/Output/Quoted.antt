-- ===== src/Runtime/Output/Quoted.antt =====
-- runtime/hcrt.c, src/lexer.cpp: what `%Q` writes is read back by the lexer.
use hlang.Base.{
  ℕ, zero, suc, ◌<◌, ◌≡◌, refl, ap, ◌∙◌, true, ◌||◌, not, [], ◌∷◌, ◌++◌, if◌then◌else◌, Bytes,
  arith, ◌==◌, length, length-append, if-elim, Bool-cases, inl, inr, all_of, codes, ==_iff,
}
use mathlib.Core.Path.{subst}
use hlang.Scan.{Pos, step_pos, advance}
use hlang.Scan.Literal.{push, chars_loop, lex_chars, escape_byte}
use hlang.Scan.Literal.Quoting.{chars_loop-plain, chars_loop-escape, chars_loop-close}
use hlang.Runtime.Output.{HcOut, empty_out, out_emit, quoted_out, emit_quoted}
use hlang.Runtime.Output.Fields.{Wrote, Wrote-nothing, Wrote-then, out_emit-Wrote}

-- how `%Q` writes a byte, and a text
abbrev quoted_byte : ℕ → Bytes
quoted_byte c =
    if c == b'"' || c == b'\\' then b'\\' ∷ c ∷ [] else if c == 10 then codes "\\n" else c ∷ []

abbrev pub quoted : Bytes → Bytes
quoted [] = []
quoted (c ∷ cs) = quoted_byte c ++ quoted cs

quoted_out-Wrote : (o : HcOut) (c : ℕ) → Wrote o (quoted_byte c) (quoted_out o c)
unfolding quoted_out
quoted_out-Wrote o c = elim (Bool-cases (c == b'"' || c == b'\\')) [
  | inl e ↦
      let p = out_emit o (b'\\' ∷ []) in
      rw e (
        Wrote-then o p (out_emit p (c ∷ [])) (b'\\' ∷ []) (c ∷ []) (out_emit-Wrote o (b'\\' ∷ []))
          (out_emit-Wrote p (c ∷ [])))
  | inr e ↦ rw e (
      if-elim (λ b. Wrote o b (if c == 10 then out_emit o (codes "\\n") else out_emit o (c ∷ [])))
        (c == 10) _ _ (λ h. rw h (out_emit-Wrote o (codes "\\n")))
        λ h. rw h (out_emit-Wrote o (c ∷ [])))
]

-- `%Q` writes the text that way.
pub emit_quoted-Wrote : (s : Bytes) (o : HcOut) → Wrote o (quoted s) (emit_quoted o s)
unfolding emit_quoted
emit_quoted-Wrote [] o = Wrote-nothing o
emit_quoted-Wrote (c ∷ cs) o =
    Wrote-then o (quoted_out o c) (emit_quoted (quoted_out o c) cs) (quoted_byte c) (quoted cs)
      (quoted_out-Wrote o c) (emit_quoted-Wrote cs (quoted_out o c))

buffer-quoted : (s : Bytes) → (emit_quoted empty_out s).buf ≡ quoted s
buffer-quoted s = by_target (emit_quoted empty_out s) (emit_quoted-Wrote s empty_out)
  where
    by_target : (o : HcOut) → Wrote empty_out (quoted s) o → o.buf ≡ quoted s
    by_target o w = subst (λ b. (if b then o.printed else o.buf) ≡ quoted s) w.0 w.1

chars_loop-newline :
    (n : ℕ) (cs : Bytes) (p : Pos)
    → chars_loop (suc n) b'"' (b'\\' ∷ b'n' ∷ cs) p
      ≡ push 10 (chars_loop n b'"' cs (step_pos b'n' (step_pos b'\\' p)))
unfolding chars_loop escape_byte
chars_loop-newline n cs p = refl

-- The first byte of the text is written as `x`, and the others are read behind it.
abbrev Reads : ℕ → Bytes → Bytes → ℕ → Pos → Bytes → Type 0
Reads c s rest n p x =
    chars_loop n b'"' ((x ++ quoted s) ++ b'"' ∷ rest) p
    ≡ record { text = c ∷ s; faults = []; rest = (rest, advance ((x ++ quoted s) ++ b'"' ∷ []) p) }

shorter : (c n : ℕ) (s : Bytes) → length (quoted (c ∷ s)) < suc n → length (quoted s) < n
shorter c n s lt =
    if-elim (λ x. length (x ++ quoted s) < suc n → length (quoted s) < n) (c == b'"' || c == b'\\')
      _ _ (λ h l. omega arith)
      (λ h.
        if-elim (λ x. length (x ++ quoted s) < suc n → length (quoted s) < n) (c == 10) _ _
          (λ h l. omega arith) (λ h l. omega arith))
      lt

chars_loop-quoted :
    (s rest : Bytes) (n : ℕ) (p : Pos)
    → all_of (λ c. not (c == b'$')) s ≡ true
    → length (quoted s) < n
    → chars_loop n b'"' (quoted s ++ b'"' ∷ rest) p
      ≡ record { text = s; faults = []; rest = (rest, advance (quoted s ++ b'"' ∷ []) p) }
unfolding advance
chars_loop-quoted s rest zero p h lt = absurd (omega arith)
chars_loop-quoted [] rest (suc n) p h lt = chars_loop-close n b'"' rest p
chars_loop-quoted (c ∷ s) rest (suc n) p h lt =
    let ih = λ (r : Pos). chars_loop-quoted s rest n r (ground (arith, h)) (shorter c n s lt) in
    let tail = quoted s ++ b'"' ∷ rest in
    if-elim (Reads c s rest (suc n) p) (c == b'"' || c == b'\\') _ _
      (λ d.
        chars_loop-escape n b'"' c tail p refl (ground (arith, d))
        ∙ ap (push c) (ih (step_pos c (step_pos b'\\' p))))
      λ d.
        if-elim (Reads c s rest (suc n) p) (c == 10) _ _
          (λ e.
            rw ((==_iff c 10).0 e)
              (chars_loop-newline n tail p ∙ ap (push 10) (ih (step_pos b'n' (step_pos b'\\' p)))))
          (λ e.
            chars_loop-plain n b'"' c tail p (ground (arith, d)) (ground (arith, h))
              (ground (arith, d))
            ∙ ap (push c) (ih (step_pos c p)))

-- A text without dollar signs, as the loop of `%Q` writes it to a new buffer and between two quotes,
-- is read by the lexer as itself: no fault is reported, the input behind the closing quote is left,
-- and the position has moved over all that was read.
pub lex_chars-emit_quoted :
    (s rest : Bytes) (p : Pos)
    → all_of (λ c. not (c == b'$')) s ≡ true
    → let written = (emit_quoted empty_out s).buf in
      lex_chars b'"' (written ++ b'"' ∷ rest) p
      ≡ record { text = s; faults = []; rest = (rest, advance (written ++ b'"' ∷ []) p) }
unfolding lex_chars
lex_chars-emit_quoted s rest p h =
    rw (buffer-quoted s)
      (chars_loop-quoted s rest _ p h (omega (arith, length-append (quoted s) (b'"' ∷ rest))))
