-- ===== src/Runtime/Format/Breaks.antt =====
-- runtime/hcrt.c: a format that breaks off within a directive is read behind its end.
use hlang.Base.{
  ℕ, zero, suc, ◌+◌, ◌*◌, ◌-◌, ◌<◌, ◌^◌, ◌≡◌, refl, ◌∙◌, Bool, true, false, ◌||◌, not, List, [],
  ◌∷◌, ◌++◌, Bytes, arith, ◌==◌, ltb, length, isdigit, Bool-cases, inl, inr, all_of, length-append,
}
use hlang.Run.{undefined, ◌>>=◌}
use hlang.Base.Int.{ℤ}
use hlang.Runtime.Output.{HcOut, out_emit}
use hlang.Runtime.Format.{
  Directive, bare, flagged, read_flags, read_count, read_prec, read_directive, format_loop,
  hc_format,
}

abbrev pub is_flag : ℕ → Bool
is_flag c = c == b'-' || (c == b'0' || (c == b',' || c == b'+'))

-- the flags are passed, and of digits there are digits left
flags-digits :
    (d : Directive) (w : Bytes) → all_of isdigit w ≡ true → all_of isdigit (read_flags d w).1 ≡ true
unfolding read_flags
flags-digits d [] h = refl
flags-digits d (c ∷ w) h = elim (Bool-cases (is_flag c)) [
  | inl e ↦ rw e (flags-digits (flagged d c) w (ground (arith, h)))
  | inr e ↦ rw e h
]

flags-passed :
    (d : Directive) (fs w : Bytes)
    → all_of is_flag fs ≡ true
    → all_of isdigit w ≡ true
    → all_of isdigit (read_flags d (fs ++ w)).1 ≡ true
unfolding read_flags
flags-passed d [] w h k = flags-digits d w k
flags-passed d (f ∷ fs) w h k =
    let e : is_flag f ≡ true = ground (arith, h) in
    rw e (flags-passed (flagged d f) fs w (ground (arith, h)) k)

count-breaks :
    (n : ℕ) (w : Bytes) (d : ℕ → Directive)
    → all_of isdigit w ≡ true
    → (read_count n w >>= λ (k, after). read_prec (d k) after) ≡ undefined
unfolding read_count read_prec
count-breaks n [] d h = refl
count-breaks n (c ∷ w) d h =
    let n' = n * 10 + (c - b'0') in
    let e : isdigit c ≡ true = ground (arith, h) in
    elim (Bool-cases (ltb n' (2 ^ 31))) [
      | inl f ↦ rw (e, f) (count-breaks n' w d (ground (arith, h)))
      | inr f ↦ rw (e, f) refl
    ]

directive-breaks :
    (fs w : Bytes)
    → all_of is_flag fs ≡ true
    → all_of isdigit w ≡ true
    → read_directive (fs ++ w) ≡ undefined
unfolding read_directive
directive-breaks fs w h k =
    let r = read_flags bare (fs ++ w) in
    count-breaks 0 r.1 (λ n. record r.0 { width = n }) (flags-passed bare fs w h k)

first-plain :
    (fs w : Bytes) (c : ℕ) (cs : Bytes)
    → all_of is_flag fs ≡ true
    → all_of isdigit w ≡ true
    → fs ++ w ≡ c ∷ cs
    → (c == b'%') ≡ false
unfolding isdigit
first-plain [] [] c cs h k e = cc e
first-plain [] (x ∷ w) c cs h k e = ground arith
first-plain (f ∷ fs) w c cs h k e = ground arith

module _ (text_at : ℕ → Bytes) (float_text : Bool → ℕ → ℕ → ℕ → Bytes) (hex16 digits2 : ℕ → Bytes)
    (digits4 : ℤ → Bytes) where
  pub plain-step :
      (n : ℕ) (o : HcOut) (c : ℕ) (cs : Bytes) (args : List ℕ)
      → (c == b'%') ≡ false
      → format_loop text_at float_text hex16 digits2 digits4 (suc n) o (c ∷ cs) args
        ≡ format_loop text_at float_text hex16 digits2 digits4 n (out_emit o (c ∷ [])) cs args
  unfolding format_loop
  plain-step n o c [] args h = rw h refl
  plain-step n o c (e ∷ cs) args h = rw h refl

  percent-breaks :
      (n : ℕ) (o : HcOut) (e : ℕ) (cs : Bytes) (args : List ℕ)
      → (e == b'%') ≡ false
      → read_directive (e ∷ cs) ≡ undefined
      → format_loop text_at float_text hex16 digits2 digits4 (suc n) o (b'%' ∷ e ∷ cs) args
        ≡ undefined
  unfolding format_loop
  percent-breaks n o e cs args h k = rw (h, k) refl

  loop-breaks :
      (n : ℕ) (o : HcOut) (s : Bytes) (e : ℕ) (cs : Bytes) (args : List ℕ)
      → all_of (λ c. not (c == b'%')) s ≡ true
      → (e == b'%') ≡ false
      → read_directive (e ∷ cs) ≡ undefined
      → length s < n
      → format_loop text_at float_text hex16 digits2 digits4 n o (s ++ b'%' ∷ e ∷ cs) args
        ≡ undefined
  loop-breaks zero o s e cs args a h k lt = absurd (omega (arith, lt))
  loop-breaks (suc n) o [] e cs args a h k lt = percent-breaks n o e cs args h k
  loop-breaks (suc n) o (c ∷ s) e cs args a h k lt =
      plain-step n o c (s ++ b'%' ∷ e ∷ cs) args (ground (arith, a))
      ∙ loop-breaks n (out_emit o (c ∷ [])) s e cs args (ground (arith, a)) h k (omega (arith, lt))

  -- A format of bytes that are no percent sign and, behind them, a directive that breaks off after
  -- its flags or within its width (of which there is at least one byte) is read behind its end: what
  -- `hc_format` does is undefined, whatever the output and the arguments are.
  pub hc_format-breaks :
      (o : HcOut) (s fs w : Bytes) (args : List ℕ)
      → all_of (λ c. not (c == b'%')) s ≡ true
      → all_of is_flag fs ≡ true
      → all_of isdigit w ≡ true
      → 0 < length (fs ++ w)
      → hc_format text_at float_text hex16 digits2 digits4 o (s ++ b'%' ∷ (fs ++ w)) args
        ≡ undefined
  unfolding hc_format
  hc_format-breaks o s fs w args a h k p =
      by_rest (fs ++ w) p (λ e cs x. first-plain fs w e cs h k x) (directive-breaks fs w h k)
    where
      by_rest :
          (x : Bytes)
          → 0 < length x
          → ((e : ℕ) (cs : Bytes) → x ≡ e ∷ cs → (e == b'%') ≡ false)
          → read_directive x ≡ undefined
          → format_loop text_at float_text hex16 digits2 digits4
              (length (s ++ b'%' ∷ x) + 1)
              o
              (s ++ b'%' ∷ x)
              args
            ≡ undefined
      by_rest [] q f g = absurd (omega (arith, q))
      by_rest (e ∷ cs) q f g =
          let l = length-append s (b'%' ∷ e ∷ cs) in
          loop-breaks _ o s e cs args a (f e cs refl) g (omega (arith, l))
