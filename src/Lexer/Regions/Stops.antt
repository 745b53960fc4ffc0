-- ===== src/Lexer/Regions/Stops.antt =====
-- Where the scan of a skipped region stops.
use mathlib.Core.Path.{subst}
use hlang.Base.{
  ℕ, zero, suc, ◌≤◌, ◌≡◌, refl, ap, Bool, true, ◌&&◌, ◌||◌, not, List, [], ◌∷◌, ◌==◌, Bytes, arith,
  length, length-append, if-elim,
}
use hlang.Scan.{Pos, Input, step_pos, at_is, skip_bytes, skip_line, block_comment}
use hlang.Scan.Literal.{Fault, lex_chars, chars_loop, stop}
use hlang.Scan.Consumption.{Took, Took-refl, Took-trans, Took-cons, take_while-Took_first}
use hlang.Lexer.Regions.{skip_region, skip_block, is_line_comment, is_block_comment}

-- no more is left than there was
Took-length : {s r : Input} → Took s r → length r.0 ≤ length s.0
Took-length {s} {r} t = omega (arith, ap length t.bytes, length-append t.taken r.0)

block_comment-Took : (cs : Bytes) (p : Pos) → Took (cs, p) (block_comment cs p).1
unfolding block_comment
block_comment-Took [] p = Took-refl ([], p)
block_comment-Took (c ∷ []) p =
    if-elim (λ (r : Bool × Input). Took (c ∷ [], p) r.1) (c == b'*' && at_is 0 b'/' []) _ _
      (λ h. absurd (ground (arith, h)))
      (λ h. Took-cons c [] p (block_comment-Took [] (step_pos c p)))
block_comment-Took (c ∷ d ∷ cs) p =
    if-elim (λ (r : Bool × Input). Took (c ∷ d ∷ cs, p) r.1) (c == b'*' && at_is 0 b'/' (d ∷ cs)) _
      _
      (λ h.
        subst (λ (e : ℕ). Took (c ∷ d ∷ cs, p) (cs, step_pos e (step_pos c p))) {y = b'/'}
          (ground (arith, h))
          (Took-cons c (d ∷ cs) p (Took-cons d cs (step_pos c p) (Took-refl _))))
      (λ h. Took-cons c (d ∷ cs) p (block_comment-Took (d ∷ cs) (step_pos c p)))

skip_block-Took : (c : ℕ) (cs : Bytes) (p : Pos) → Took (cs, step_pos c p) (skip_block (c ∷ cs) p).1
unfolding skip_block skip_bytes
skip_block-Took c [] p = block_comment-Took [] (step_pos c p)
skip_block-Took c (d ∷ cs) p =
    Took-cons d cs (step_pos c p) (block_comment-Took cs (step_pos d (step_pos c p)))

skip_line-Took :
    (c : ℕ) (cs : Bytes) (p : Pos)
    → is_line_comment c cs ≡ true
    → Took (cs, step_pos c p) (skip_line (c ∷ cs) p)
unfolding skip_line
skip_line-Took c cs p h = take_while-Took_first (λ c. not (c == b'\n')) c cs p (ground (arith, h))

-- at a quote that is still unread the literal is empty
lex_chars-unread :
    (c : ℕ) (cs : Bytes) (p : Pos) → lex_chars c (c ∷ cs) p ≡ stop [] (cs, step_pos c p)
unfolding lex_chars chars_loop
lex_chars-unread c [] p = ground arith
lex_chars-unread c (d ∷ cs) p = ground arith

lex_chars-Took_unread :
    (c : ℕ) (cs : Bytes) (p : Pos) → Took (cs, step_pos c p) (lex_chars c (c ∷ cs) p).rest
lex_chars-Took_unread c cs p = rw (lex_chars-unread c cs p) (Took-refl (cs, step_pos c p))

-- The end of the input, the start of a directive, or the start of a line.
abbrev pub at_stop : Input → Bool
at_stop ([], p) = true
at_stop (c ∷ cs, p) = c == b'#' || p.col == 1

at_stop-newline :
    (c : ℕ) (cs : Bytes) (p : Pos) → (c == b'\n') ≡ true → at_stop (cs, step_pos c p) ≡ true
unfolding step_pos
at_stop-newline c [] p h = refl
at_stop-newline c (d ∷ cs) p h = ground arith

-- From one input a run reaches another, and a stop is there.
abbrev Reaches : Input → Input → Type 0
Reaches s r = Took s r × (at_stop r ≡ true)

Reaches-cons :
    (c : ℕ) (cs : Bytes) (p : Pos) {s r : Input}
    → Took (cs, step_pos c p) s
    → Reaches s r
    → Reaches (c ∷ cs, p) r
Reaches-cons c cs p t h = (Took-cons c cs p (Took-trans t h.0), h.1)

-- The scan of a skipped region takes bytes off the input, with the position moved over them, and with
-- the bytes at hand as fuel it stops only at the end, at a `#`, or in the first column.
pub skip_region-Took :
    (n : ℕ) (cs : Bytes) (p : Pos)
    → length cs ≤ n
    → Took (cs, p) (skip_region n cs p).1 × (at_stop (skip_region n cs p).1 ≡ true)
unfolding skip_region
skip_region-Took n [] p h = (unfold skip_region in Took-refl ([], p), unfold skip_region in refl)
skip_region-Took zero (c ∷ cs) p h = absurd (omega (arith, h))
skip_region-Took (suc n) (c ∷ cs) p h =
    let P = λ (r : List (Pos × Fault) × Input). Reaches (c ∷ cs, p) r.1 in
    let q = step_pos c p in
    let onward = λ (s : Input) (t : Took (cs, q) s).
      Reaches-cons c cs p t (skip_region-Took n s.0 s.1 (omega (arith, h, Took-length t))) in
    if-elim P (c == b'#') _ _ (λ e. (Took-refl (c ∷ cs, p), ground (arith, e)))
      λ _.
        if-elim P (is_line_comment c cs) _ _
          (λ e. onward (skip_line (c ∷ cs) p) (skip_line-Took c cs p e))
          λ _.
            if-elim P (is_block_comment c cs) _ _
              (λ e. onward (skip_block (c ∷ cs) p).1 (skip_block-Took c cs p))
              λ _.
                if-elim P (c == b'"' || c == b'\'') _ _
                  (λ _. onward (lex_chars c (c ∷ cs) p).rest (lex_chars-Took_unread c cs p))
                  λ _.
                    if-elim P (c == b'\n') _ _
                      (λ e. (Took-cons c cs p (Took-refl (cs, q)), at_stop-newline c cs p e))
                      (λ _. onward (cs, q) (Took-refl (cs, q)))
