-- ===== src/Runtime/Output/Fields.antt =====
-- runtime/hcrt.c: what the fields of `Print` are.
use hlang.Base.{
  ℕ, zero, suc, ◌+◌, ◌-◌, ◌≡◌, refl, sym, ap, ◌∙◌, Bool, true, false, ◌||◌, [], ◌∷◌, ◌++◌,
  append-nil, append_assoc, Bytes, arith, if◌then◌else◌, ◌==◌, leb, max, length, length-append,
  Bool-cases, inl, inr,
}
use hlang.Runtime.Output.{HcOut, out_emit, out_pad, sign_of, drop_sign, fmt_field}

-- what was written, wherever it goes
abbrev pub content : HcOut → Bytes
content o = if o.to_stdout then o.printed else o.buf

-- One output is another with some bytes behind it.
abbrev pub Wrote : HcOut → Bytes → HcOut → Type 0
Wrote o s o' = (o'.to_stdout ≡ o.to_stdout) × (content o' ≡ content o ++ s)

pub out_emit-Wrote : (o : HcOut) (s : Bytes) → Wrote o s (out_emit o s)
unfolding out_emit
out_emit-Wrote o s = elim (Bool-cases o.to_stdout) [
  | inl e ↦ rw e (refl, refl)
  | inr e ↦ rw e (refl, refl)
]

pub Wrote-nothing : (o : HcOut) → Wrote o [] o
Wrote-nothing o = (refl, sym (append-nil (content o)))

pub Wrote-then : (o p q : HcOut) (s t : Bytes) → Wrote o s p → Wrote p t q → Wrote o (s ++ t) q
Wrote-then o p q s t a b = (b.0 ∙ a.0, b.1 ∙ ap (λ x. x ++ t) a.1 ∙ append_assoc (content o) s t)

abbrev pub replicate : ℕ → ℕ → Bytes
replicate zero c = []
replicate (suc n) c = c ∷ replicate n c

length-replicate : (n c : ℕ) → length (replicate n c) ≡ n
length-replicate zero c = refl
length-replicate (suc n) c = ap suc (length-replicate n c)

out_pad-Wrote : (n c : ℕ) (o : HcOut) → Wrote o (replicate n c) (out_pad o c n)
unfolding out_pad
out_pad-Wrote zero c o = Wrote-nothing o
out_pad-Wrote (suc n) c o =
    Wrote-then o (out_emit o (c ∷ [])) (out_pad (out_emit o (c ∷ [])) c n) (c ∷ []) (replicate n c)
      (out_emit-Wrote o (c ∷ [])) (out_pad-Wrote n c (out_emit o (c ∷ [])))

-- Zeros before a number, or behind the plus or minus that it begins with.
abbrev pub zeros_in : ℕ → Bytes → Bytes
zeros_in pad [] = replicate pad b'0'
zeros_in pad (c ∷ cs) =
    if c == b'-' || c == b'+' then c ∷ (replicate pad b'0' ++ cs) else replicate pad b'0' ++ c ∷ cs

-- A text in a field of a width: at its left or right end between spaces, or with zeros before or in
-- it.
abbrev pub field : Bytes → ℕ → Bool → Bool → Bytes
field body width left zero_fill =
    let pad = width - length body in
    if left
    then body ++ replicate pad b' '
    else if zero_fill
    then zeros_in pad body
    else replicate pad b' ' ++ body

-- What the code puts out in three parts is the field.
zeros_in-parts :
    (pad : ℕ) (s : Bytes) → sign_of s ++ (replicate pad b'0' ++ drop_sign s) ≡ zeros_in pad s
unfolding sign_of drop_sign
zeros_in-parts pad [] = append-nil (replicate pad b'0')
zeros_in-parts pad (c ∷ cs) = elim (Bool-cases (c == b'-' || c == b'+')) [
  | inl e ↦ rw e refl
  | inr e ↦ rw e refl
]

length-zeros_in : (pad : ℕ) (s : Bytes) → length (zeros_in pad s) ≡ pad + length s
length-zeros_in pad [] = omega (arith, length-replicate pad b'0')
length-zeros_in pad (c ∷ cs) =
    let zeros = replicate pad b'0' in
    elim (Bool-cases (c == b'-' || c == b'+')) [
      | inl e ↦ rw e (omega (arith, length-append zeros cs, length-replicate pad b'0'))
      | inr e ↦ rw e (omega (arith, length-append zeros (c ∷ cs), length-replicate pad b'0'))
    ]

zeros_in-none : (s : Bytes) → zeros_in 0 s ≡ s
zeros_in-none [] = refl
zeros_in-none (c ∷ cs) = elim (Bool-cases (c == b'-' || c == b'+')) [
  | inl e ↦ rw e refl
  | inr e ↦ rw e refl
]

length-field :
    (s : Bytes) (width : ℕ) (left zero_fill : Bool)
    → length (field s width left zero_fill) ≡ max (length s) width
length-field s width true z =
    let pad = replicate (width - length s) b' ' in
    omega (arith, length-append s pad, length-replicate (width - length s) b' ')
length-field s width false true = omega (arith, length-zeros_in (width - length s) s)
length-field s width false false =
    let pad = replicate (width - length s) b' ' in
    omega (arith, length-append pad s, length-replicate (width - length s) b' ')

field-whole :
    (s : Bytes) (width : ℕ) (left zero_fill : Bool)
    → leb width (length s) ≡ true
    → field s width left zero_fill ≡ s
field-whole s width left z h =
    let none_left : width - length s ≡ 0 = ground (arith, h) in by_side left z none_left
  where
    by_side : (l y : Bool) → width - length s ≡ 0 → field s width l y ≡ s
    by_side true y e = rw e (append-nil s)
    by_side false true e = rw e (zeros_in-none s)
    by_side false false e = rw e refl

-- `fmt_field` puts the sign out only where there is one.
abbrev sign_out : HcOut → Bytes → HcOut
sign_out o s = if length (sign_of s) == 0 then o else out_emit o (sign_of s)

not_empty : (n : ℕ) → (suc n == 0) ≡ false
not_empty n = ground arith

sign_out-Wrote : (o : HcOut) (s : Bytes) → Wrote o (sign_of s) (sign_out o s)
sign_out-Wrote o s = by_sign (sign_of s)
  where
    by_sign : (t : Bytes) → Wrote o t (if length t == 0 then o else out_emit o t)
    by_sign [] = Wrote-nothing o
    by_sign (c ∷ t) = rw (not_empty (length t)) (out_emit-Wrote o (c ∷ t))

fmt_field-Wrote :
    (o : HcOut) (s : Bytes) (width : ℕ) (left zero_fill : Bool)
    → Wrote o (field s width left zero_fill) (fmt_field o s width left zero_fill)
unfolding fmt_field
fmt_field-Wrote o s width left z = elim (Bool-cases (leb width (length s))) [
  | inl e ↦ rw (e, field-whole s width left z e) (out_emit-Wrote o s)
  | inr e ↦ rw e (by_side left z)
]
  where
    pad : ℕ
    pad = width - length s

    by_side :
        (l y : Bool)
        → Wrote o (field s width l y) (
            if l
            then out_pad (out_emit o s) b' ' pad
            else if y
            then out_emit (out_pad (sign_out o s) b'0' pad) (drop_sign s)
            else out_emit (out_pad o b' ' pad) s)
    by_side true y =
        Wrote-then o (out_emit o s) (out_pad (out_emit o s) b' ' pad) s (replicate pad b' ')
          (out_emit-Wrote o s) (out_pad-Wrote pad b' ' (out_emit o s))
    by_side false true =
        let p = sign_out o s in
        let q = out_pad p b'0' pad in
        rw (← zeros_in-parts pad s) (
          Wrote-then o p (out_emit q (drop_sign s)) (sign_of s) (replicate pad b'0' ++ drop_sign s)
            (sign_out-Wrote o s)
            (Wrote-then p q (out_emit q (drop_sign s)) (replicate pad b'0') (drop_sign s)
              (out_pad-Wrote pad b'0' p) (out_emit-Wrote q (drop_sign s))))
    by_side false false =
        Wrote-then o (out_pad o b' ' pad) (out_emit (out_pad o b' ' pad) s) (replicate pad b' ') s
          (out_pad-Wrote pad b' ' o) (out_emit-Wrote (out_pad o b' ' pad) s)

-- `fmt_field` writes, to a buffer or to the standard output, behind what is there: the text at the left
-- or right end of spaces, or, filled up with zeros, with these before it, or behind the plus or minus
-- that it begins with; what it writes is as long as the text or the width, whichever is more.
pub fmt_field-field :
    (o : HcOut) (s : Bytes) (width : ℕ) (left zero_fill : Bool)
    → Wrote o (field s width left zero_fill) (fmt_field o s width left zero_fill)
      × (length (field s width left zero_fill) ≡ max (length s) width)
fmt_field-field o s width left z = (fmt_field-Wrote o s width left z, length-field s width left z)
