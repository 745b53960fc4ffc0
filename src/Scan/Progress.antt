-- ===== src/Scan/Progress.antt =====
-- A token takes at least one byte.
use hlang.Base.{
  ℕ, ◌≡◌, Bool, true, not, ◌&&◌, ◌||◌, ◌∷◌, Bytes, arith, Bool-cases, Option-cases, inl, inr, ◌==◌,
  isdigit, isxdigit, isalpha, isalnum, if-elim,
}
use hlang.Token.{SrcLoc}
use hlang.Scan.{Pos, Input, step_pos, at_is, at_test, skip_bytes, is_word}
use hlang.Scan.Consumption.{
  Took, Took-refl, Took-trans, skip_bytes-Took, take_while-Took, take_while-Took_first,
  chars_loop-Took,
}
use hlang.Scan.Number.{
  digits_loop, is_binary_digit, fraction, exponent, decimal, is_hex, is_binary, lex_number,
}
use hlang.Scan.Symbol.{lex_punct}
use hlang.Scan.Lexeme.{Lexed, lex_symbol, lex_token}

digits_loop-Took : (f : ℕ → Bool) (s : Input) → Took s (digits_loop f s).1
unfolding digits_loop
digits_loop-Took f s = take_while-Took (λ c. f c || c == b'_') s.0 s.1

digits_loop-Took_first :
    (f : ℕ → Bool) (c : ℕ) (cs : Bytes) (p : Pos)
    → f c ≡ true
    → Took (cs, step_pos c p) (digits_loop f (c ∷ cs, p)).1
unfolding digits_loop
digits_loop-Took_first f c cs p h =
    take_while-Took_first (λ c. f c || c == b'_') c cs p (ground (arith, h))

fraction-Took : (num : Bytes) (s : Input) → Took s (fraction (num, s)).1
unfolding fraction
fraction-Took num (cs, p) =
    if-elim (λ (r : (Bool × Bytes) × Input). Took (cs, p) r.1)
      (at_is 0 b'.' cs && at_test 1 isdigit cs) _ _
      (λ h.
        Took-trans (skip_bytes-Took 1 (cs, p)) (digits_loop-Took isdigit (skip_bytes 1 (cs, p))))
      (λ h. Took-refl (cs, p))

exponent-Took : (b : Bool) (num : Bytes) (s : Input) → Took s (exponent ((b, num), s)).1
unfolding exponent
exponent-Took b num (cs, p) =
    let s = skip_bytes 2 (cs, p) in
    if-elim (λ (r : (Bool × Bytes) × Input). Took (cs, p) r.1) _ _ _
      (λ h. Took-trans (skip_bytes-Took 2 (cs, p)) (take_while-Took isdigit s.0 s.1))
      (λ h. Took-refl (cs, p))

decimal-Took_first :
    (l : SrcLoc) (c : ℕ) (cs : Bytes) (p : Pos)
    → isdigit c ≡ true
    → Took (cs, step_pos c p) (decimal l (c ∷ cs, p)).1
unfolding decimal
decimal-Took_first l c cs p h =
    let d = digits_loop isdigit (c ∷ cs, p) in
    let r = fraction d in
    Took-trans (Took-trans (digits_loop-Took_first isdigit c cs p h) (fraction-Took d.0 d.1))
      (exponent-Took r.0.0 r.0.1 r.1)

skip_second-Took :
    (c : ℕ) (cs : Bytes) (p : Pos) → Took (cs, step_pos c p) (skip_bytes 2 (c ∷ cs, p))
unfolding skip_bytes
skip_second-Took c cs p = skip_bytes-Took 1 (cs, step_pos c p)

-- the digits behind a prefix of two bytes
prefixed-Took :
    (f : ℕ → Bool) (c : ℕ) (cs : Bytes) (p : Pos)
    → Took (cs, step_pos c p) (digits_loop f (skip_bytes 2 (c ∷ cs, p))).1
prefixed-Took f c cs p =
    Took-trans (skip_second-Took c cs p) (digits_loop-Took f (skip_bytes 2 (c ∷ cs, p)))

lex_number-Took_first :
    (l : SrcLoc) (c : ℕ) (cs : Bytes) (p : Pos)
    → isdigit c ≡ true
    → Took (cs, step_pos c p) (lex_number l (c ∷ cs, p)).1
lex_number-Took_first l c cs p h = elim (Bool-cases (is_hex (c ∷ cs))) [
  | inl e ↦ unfold lex_number in rw e (prefixed-Took isxdigit c cs p)
  | inr e ↦ elim (Bool-cases (is_binary (c ∷ cs))) [
    | inl b ↦ unfold lex_number in rw (e, b) (prefixed-Took is_binary_digit c cs p)
    | inr b ↦ unfold lex_number in rw (e, b) (decimal-Took_first l c cs p h)
  ]
]

lex_symbol-Took :
    (l : SrcLoc) (c : ℕ) (cs : Bytes) (p : Pos) → Took (cs, step_pos c p) (lex_symbol l c cs p).rest
unfolding lex_symbol
lex_symbol-Took l c cs p = elim (Option-cases (lex_punct c cs)) [
  | inl e ↦ rw (e, lex_symbol) (Took-refl (cs, step_pos c p))
  | inr ((q, k), e) ↦ rw (e, lex_symbol) (skip_bytes-Took k (cs, step_pos c p))
]

-- the first byte of an identifier is one of its bytes
is_start-word :
    (c : ℕ) → (isalpha c || c == b'_' || c == b'@') ≡ true → (is_word c || c == b'@') ≡ true
unfolding is_word isalnum isalpha isdigit
is_start-word c h = ground arith

-- `lexToken` takes the byte at hand, and any more only from behind it, with the position moved over
-- what it takes; also for a literal that is not closed and for a stray byte.
pub lex_token-Took :
    (l : SrcLoc) (c : ℕ) (cs : Bytes) (p : Pos) → Took (cs, step_pos c p) (lex_token l c cs p).rest
unfolding lex_token
lex_token-Took l c cs p =
    let P = λ (r : Lexed). Took (cs, step_pos c p) r.rest in
    if-elim P (isalpha c || c == b'_' || c == b'@') _ _
      (λ h.
        if-elim P (c == b'@' && not (at_is 0 b'@' cs)) _ _ (λ _. Took-refl (cs, step_pos c p))
          (λ _. take_while-Took_first (λ d. is_word d || d == b'@') c cs p (is_start-word c h)))
      λ _.
        if-elim P (isdigit c) _ _ (λ h. lex_number-Took_first l c cs p h)
          λ _.
            if-elim P (c == b'"') _ _ (λ _. chars_loop-Took _ b'"' cs (step_pos c p))
              λ _.
                if-elim P (c == b'\'') _ _ (λ _. chars_loop-Took _ b'\'' cs (step_pos c p))
                  λ _. lex_symbol-Took l c cs p
