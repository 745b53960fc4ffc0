-- ===== src/Runtime/Format/Ends.antt =====
-- runtime/hcrt.c: the loop of `hc_format` has enough fuel for any format.
use hlang.Base.{
  ℕ, zero, suc, ◌+◌, ◌*◌, ◌-◌, ◌≤◌, ◌<◌, ◌^◌, ◌≡◌, ◌≢◌, refl, Bool, ◌||◌, List, [], ◌∷◌, some, none,
  Bytes, arith, ◌==◌, ltb, length, isdigit, Bool-cases, Option-cases, inl, inr, if-elim,
}
use mathlib.Core.Path.{subst}
use hlang.Run.{Run, ok, undefined, out_of_fuel, ◌>>=◌}
use hlang.Base.Int.{ℤ}
use hlang.Runtime.Output.{HcOut, out_emit}
use hlang.Runtime.Format.{
  Directive, bare, flagged, read_flags, read_count, read_conv, read_prec, read_directive, converted,
  next_arg, perform, format_loop, hc_format,
}

-- An outcome within the fuel, and what is left of the format is at most so long
abbrev Left : ℕ → Run (Directive × Bytes) → Type 0
Left n (ok (d, rest)) = length rest ≤ n
Left n undefined = Unit
Left n out_of_fuel = ⊥

read_flags-shorter : (d : Directive) (cs : Bytes) → length (read_flags d cs).1 ≤ length cs
unfolding read_flags
read_flags-shorter d [] = omega arith
read_flags-shorter d (c ∷ cs) =
    elim (Bool-cases (c == b'-' || (c == b'0' || (c == b',' || c == b'+')))) [
      | inl e ↦ rw e (let ih = read_flags-shorter (flagged d c) cs in omega (arith, ih))
      | inr e ↦ rw e (omega arith)
    ]

-- what is left of a count
abbrev Counted : ℕ → Run (ℕ × Bytes) → Type 0
Counted n (ok (k, rest)) = length rest ≤ n
Counted n undefined = Unit
Counted n out_of_fuel = ⊥

Counted-wider : (n m : ℕ) (r : Run (ℕ × Bytes)) → m ≤ n → Counted m r → Counted n r
Counted-wider n m (ok x) w h = omega (arith, w, h)
Counted-wider n m undefined w h = tt
Counted-wider n m out_of_fuel w h = h

read_count-Counted : (k : ℕ) (cs : Bytes) → Counted (length cs) (read_count k cs)
unfolding read_count
read_count-Counted k [] = omega arith
read_count-Counted k (c ∷ cs) = elim (Bool-cases (isdigit c)) [
  | inl e ↦
      let k' = k * 10 + (c - b'0') in
      elim (Bool-cases (ltb k' (2 ^ 31))) [
        | inl f ↦
            rw (e, f)
              (Counted-wider (suc (length cs)) (length cs) (read_count k' cs) (omega arith)
                (read_count-Counted k' cs))
        | inr f ↦ rw (e, f) tt
      ]
  | inr e ↦ rw e (omega arith)
]

read_conv-Left : (d : Directive) (cs : Bytes) (n : ℕ) → length cs ≤ n → Left n (read_conv d cs)
read_conv-Left d [] n h = tt
read_conv-Left d (c ∷ cs) n h = omega (arith, h)

-- after a count, and after what follows it
Left-after :
    (n : ℕ) (r : Run (ℕ × Bytes)) (k : ℕ × Bytes → Run (Directive × Bytes))
    → Counted n r
    → ((x : ℕ × Bytes) → length x.1 ≤ n → Left n (k x))
    → Left n (r >>= k)
Left-after n (ok x) k h f = f x h
Left-after n undefined k h f = tt
Left-after n out_of_fuel k h f = absurd h

read_prec-Left : (d : Directive) (cs : Bytes) (n : ℕ) → length cs ≤ n → Left n (read_prec d cs)
unfolding read_prec
read_prec-Left d [] n h = tt
read_prec-Left d (c ∷ cs) n h = elim (Bool-cases (c == b'.')) [
  | inl e ↦ rw e (
      Left-after n (read_count 0 cs) _
        (Counted-wider n (length cs) (read_count 0 cs) (omega (arith, h)) (read_count-Counted 0 cs))
        λ x g. read_conv-Left (record d { prec = some x.0 }) x.1 n g)
  | inr e ↦ rw e (read_conv-Left d (c ∷ cs) n h)
]

read_directive-Left : (cs : Bytes) → Left (length cs) (read_directive cs)
unfolding read_directive
read_directive-Left cs =
    let (d, rest) = read_flags bare cs in
    Left-after (length cs) (read_count 0 rest) _
      (Counted-wider (length cs) (length rest) (read_count 0 rest) (read_flags-shorter bare cs)
        (read_count-Counted 0 rest))
      λ x g. read_prec-Left (record d { width = x.0 }) x.1 (length cs) g

Left-ends : (n : ℕ) (r : Run (Directive × Bytes)) → Left n r → r ≢ out_of_fuel
Left-ends n (ok x) h e = cc e
Left-ends n undefined h e = cc e
Left-ends n out_of_fuel h e = h

-- one step after another
then-ends :
    {A : Type 0} {B : Type 0} (r : Run A) (k : A → Run B)
    → r ≢ out_of_fuel
    → ((a : A) → r ≡ ok a → k a ≢ out_of_fuel)
    → (r >>= k) ≢ out_of_fuel
then-ends (ok a) k h f = f a refl
then-ends undefined k h f = λ e. cc e
then-ends out_of_fuel k h f = absurd (h refl)

abbrev Ends : Run (HcOut × List ℕ) → Type 0
Ends r = r ≢ out_of_fuel

module _ (text_at : ℕ → Bytes) (float_text : Bool → ℕ → ℕ → ℕ → Bytes) (hex16 digits2 : ℕ → Bytes)
    (digits4 : ℤ → Bytes) where
  perform-ends :
      (o : HcOut) (d : Directive) (args : List ℕ)
      → perform text_at float_text hex16 digits2 digits4 o d args ≢ out_of_fuel
  unfolding perform
  perform-ends o d args =
      elim (Option-cases (converted text_at float_text hex16 digits2 digits4 d args)) [
        | inl e ↦
            rw (e, perform)
              (if-elim Ends (d.conv == b'z') _ _
                (λ z.
                  if-elim Ends ((next_arg (next_arg args).1).0 == 0) _ _ (λ b h. cc h)
                    (λ b.
                      if-elim Ends ((next_arg args).0 == 2 ^ 63) _ _ (λ a h. cc h) (λ a h. cc h)))
                (λ z.
                  if-elim Ends (d.conv == b'D') _ _ (λ y h. cc h)
                    (λ y. if-elim Ends (d.conv == b'T') _ _ (λ t h. cc h) (λ t h. cc h))))
        | inr ((none, left), e) ↦ rw (e, perform) (λ h. cc h)
        | inr ((some s, left), e) ↦ rw (e, perform) (λ h. cc h)
      ]

  format_loop-ends :
      (n : ℕ) (o : HcOut) (cs : Bytes) (args : List ℕ)
      → length cs < n
      → format_loop text_at float_text hex16 digits2 digits4 n o cs args ≢ out_of_fuel
  unfolding format_loop
  format_loop-ends zero o cs args h = absurd (omega (arith, h))
  format_loop-ends (suc n) o [] args h = λ e. cc e
  format_loop-ends (suc n) o (c ∷ []) args h = elim (Bool-cases (c == b'%')) [
    | inl e ↦ rw e (λ x. cc x)
    | inr e ↦ rw e (format_loop-ends n (out_emit o (c ∷ [])) [] args (omega (arith, h)))
  ]
  format_loop-ends (suc n) o (c ∷ e ∷ cs) args h = elim (Bool-cases (c == b'%')) [
    | inl x ↦ elim (Bool-cases (e == b'%')) [
      | inl y ↦ rw (x, y) (format_loop-ends n (out_emit o (b'%' ∷ [])) cs args (omega (arith, h)))
      | inr y ↦
          rw (x, y)
            (then-ends (read_directive (e ∷ cs)) _
              (Left-ends (length (e ∷ cs)) (read_directive (e ∷ cs)) (read_directive-Left (e ∷ cs)))
              λ r g.
                then-ends (perform text_at float_text hex16 digits2 digits4 o r.0 args) _
                  (perform-ends o r.0 args)
                  λ q g'. format_loop-ends n q.0 r.1 q.1 (
                    let l : length r.1 ≤ length (e ∷ cs) =
                      subst (Left (length (e ∷ cs))) g (read_directive-Left (e ∷ cs)) in
                    omega (arith, h, l)))
    ]
    | inr x ↦ rw x (format_loop-ends n (out_emit o (c ∷ [])) (e ∷ cs) args (omega (arith, h)))
  ]

  -- The fuel of the model is enough for any format and arguments: `hc_format` has an output, or what it
  -- does is undefined.
  hc_format-ends :
      (o : HcOut) (cs : Bytes) (args : List ℕ)
      → hc_format text_at float_text hex16 digits2 digits4 o cs args ≢ out_of_fuel
  unfolding hc_format
  hc_format-ends o cs args = format_loop-ends (length cs + 1) o cs args (omega arith)
