-- ===== src/Scan/Consumption.antt =====
-- What the character level takes of the input, and the position that it reaches.
use hlang.Base.{
  ℕ, zero, suc, ◌≡◌, refl, sym, ap, ◌∙◌, Bool, true, false, [], ◌∷◌, ◌++◌, append_assoc, Bytes,
  Bool-cases, inl, inr, ◌==◌, isxdigit, if-elim,
}
use hlang.Scan.{Pos, Input, step_pos, advance, getc, skip_bytes, take_while}
use hlang.Scan.Literal.{Chars, hex_digits_loop, chars_loop}

-- From one input to another by taking some bytes off its front, with the position moved over them.
pub record Took (s r : Input) : Type 0 where
  pub taken : Bytes
  pub bytes : s.0 ≡ taken ++ r.0
  pub place : r.1 ≡ advance taken s.1

advance-append : (a b : Bytes) (p : Pos) → advance (a ++ b) p ≡ advance b (advance a p)
unfolding advance
advance-append [] b p = refl
advance-append (c ∷ a) b p = advance-append a b (step_pos c p)

pub Took-refl : (s : Input) → Took s s
unfolding advance
Took-refl s = record { taken = []; bytes = refl; place = refl }

pub Took-trans : {s r u : Input} → Took s r → Took r u → Took s u
Took-trans {s} {r} {u} a b = record {
  taken = a.taken ++ b.taken;
  bytes = a.bytes ∙ ap (λ x. a.taken ++ x) b.bytes ∙ sym (append_assoc a.taken b.taken u.0);
  place = b.place ∙ ap (advance b.taken) a.place ∙ sym (advance-append a.taken b.taken s.1);
}

pub Took-cons :
    (c : ℕ) (cs : Bytes) (p : Pos) {r : Input} → Took (cs, step_pos c p) r → Took (c ∷ cs, p) r
unfolding advance
Took-cons c cs p t = record {
  taken = c ∷ t.taken;
  bytes = ap (λ x. c ∷ x) t.bytes;
  place = t.place;
}

getc-Took : (s : Input) → Took s (getc s).1
unfolding getc advance
getc-Took ([], p) = Took-refl ([], p)
getc-Took (c ∷ cs, p) = Took-cons c cs p (Took-refl (cs, step_pos c p))

pub skip_bytes-Took : (n : ℕ) (s : Input) → Took s (skip_bytes n s)
unfolding skip_bytes
skip_bytes-Took zero s = Took-refl s
skip_bytes-Took (suc n) s = Took-trans (getc-Took s) (skip_bytes-Took n (getc s).1)

pub take_while-Took : (f : ℕ → Bool) (cs : Bytes) (p : Pos) → Took (cs, p) (take_while f cs p).1
unfolding take_while
take_while-Took f [] p = Took-refl ([], p)
take_while-Took f (c ∷ cs) p = elim (Bool-cases (f c)) [
  | inl e ↦ rw (e, take_while) (Took-cons c cs p (take_while-Took f cs (step_pos c p)))
  | inr e ↦ rw (e, take_while) (Took-refl (c ∷ cs, p))
]

-- where the first byte passes the test it is taken
pub take_while-Took_first :
    (f : ℕ → Bool) (c : ℕ) (cs : Bytes) (p : Pos)
    → f c ≡ true
    → Took (cs, step_pos c p) (take_while f (c ∷ cs) p).1
unfolding take_while
take_while-Took_first f c cs p e = rw (e, take_while) (take_while-Took f cs (step_pos c p))

hex_digits_loop-Took :
    (n v : ℕ) (b : Bool) (cs : Bytes) (p : Pos) → Took (cs, p) (hex_digits_loop n v b cs p).1
unfolding hex_digits_loop
hex_digits_loop-Took zero v b cs p = Took-refl (cs, p)
hex_digits_loop-Took (suc n) v b [] p = Took-refl ([], p)
hex_digits_loop-Took (suc n) v b (c ∷ cs) p =
    if-elim (λ (r : (ℕ × Bool) × Input). Took (c ∷ cs, p) r.1) (isxdigit c) _ _
      (λ h. Took-cons c cs p (hex_digits_loop-Took n _ true cs (step_pos c p)))
      (λ h. Took-refl (c ∷ cs, p))

Took-pair :
    (c e : ℕ) (cs : Bytes) (p : Pos) {r : Input}
    → Took (cs, step_pos e (step_pos c p)) r
    → Took (c ∷ e ∷ cs, p) r
Took-pair c e cs p t = Took-cons c (e ∷ cs) p (Took-cons e cs (step_pos c p) t)

-- what a literal takes behind its opening quote
pub chars_loop-Took : (n q : ℕ) (cs : Bytes) (p : Pos) → Took (cs, p) (chars_loop n q cs p).rest
unfolding chars_loop
chars_loop-Took zero q cs p = Took-refl (cs, p)
chars_loop-Took (suc n) q [] p = Took-refl ([], p)
chars_loop-Took (suc n) q (c ∷ []) p =
    if-elim (λ (r : Chars). Took (c ∷ [], p) r.rest) (c == q) _ _
      (λ h. Took-cons c [] p (Took-refl _))
      (λ h.
        if-elim (λ (r : Chars). Took (c ∷ [], p) r.rest) (c == b'\\') _ _
          (λ h. Took-cons c [] p (Took-refl _))
          (λ h. Took-cons c [] p (chars_loop-Took n q [] (step_pos c p))))
chars_loop-Took (suc n) q (c ∷ e ∷ cs) p =
    let s = step_pos e (step_pos c p) in
    let hex = hex_digits_loop 2 0 false cs s in
    let pair = Took-pair c e cs p (chars_loop-Took n q cs s) in
    let one = Took-cons c (e ∷ cs) p (chars_loop-Took n q (e ∷ cs) (step_pos c p)) in
    let behind =
      Took-pair c e cs p
        (Took-trans (hex_digits_loop-Took 2 0 false cs s) (chars_loop-Took n q hex.1.0 hex.1.1)) in
    let P = λ (r : Chars). Took (c ∷ e ∷ cs, p) r.rest in
    if-elim P (c == q) _ _ (λ h. Took-cons c (e ∷ cs) p (Took-refl _))
      λ h.
        if-elim P (c == b'$') _ _ (λ h. if-elim P (e == b'$') _ _ (λ h. pair) (λ h. one))
          λ h.
            if-elim P (c == b'\\') _ _
              (λ h.
                if-elim P (e == b'x') _ _ (λ h. if-elim P hex.0.1 _ _ (λ h. behind) (λ h. behind))
                  (λ h. pair))
              (λ h. one)
