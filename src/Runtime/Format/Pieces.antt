-- ===== src/Runtime/Format/Pieces.antt =====
-- runtime/hcrt.c: formats written from their parts, and how `hc_format` reads a directive of them.
use hlang.Base.{
  ℕ, zero, suc, ◌+◌, ◌*◌, ◌-◌, ◌^◌, ◌≤◌, ◌<◌, ◌≡◌, refl, Bool, true, false, ◌&&◌, ◌||◌, not, List,
  [], ◌∷◌, ◌++◌, Option, none, some, Bytes, arith, ◌==◌, ltb, leb, length, isdigit, lt→ltb,
  Bool-cases, inl, inr, all_of,
}
use hlang.Run.{ok}
use hlang.Runtime.Format.{
  Directive, bare, flagged, read_flags, read_count, read_prec, read_directive,
}
use hlang.Runtime.Format.Breaks.{is_flag}

-- What a format consists of: a byte, a doubled percent sign, or a directive with its flags, the digits
-- of a width and perhaps of a precision, and the byte that says what to write.
pub data Piece : Type 0 where
  byte : ℕ → Piece
  percent : Piece
  directive : Bytes → Bytes → Option Bytes → ℕ → Piece

abbrev pub precision : Option Bytes → Bytes
precision none = []
precision (some ds) = b'.' ∷ ds

abbrev pub write_piece : Piece → Bytes
write_piece (byte c) = c ∷ []
write_piece percent = b'%' ∷ b'%' ∷ []
write_piece (directive flags width prec conv) =
    b'%' ∷ (flags ++ (width ++ (precision prec ++ conv ∷ [])))

abbrev pub write : List Piece → Bytes
write [] = []
write (p ∷ ps) = write_piece p ++ write ps

-- at most nine digits
abbrev pub is_count : Bytes → Bool
is_count ds = all_of isdigit ds && leb (length ds) 9

abbrev pub is_precision : Option Bytes → Bool
is_precision none = true
is_precision (some ds) = is_count ds

-- no byte that would be taken for another part of a directive
abbrev pub is_conv : ℕ → Bool
is_conv c = not (isdigit c || (is_flag c || (c == b'.' || c == b'%')))

abbrev pub is_formed : Piece → Bool
is_formed (byte c) = not (c == b'%')
is_formed percent = true
is_formed (directive flags width prec conv) =
    all_of is_flag flags && (is_count width && (is_precision prec && is_conv conv))

abbrev ends_count : Bytes → Bool
ends_count [] = true
ends_count (c ∷ cs) = not (isdigit c)

ten_positive : (k : ℕ) → 0 < 10 ^ k
ten_positive zero = omega arith
ten_positive (suc k) = omega (arith, ten_positive k)

ten_mono : (k m : ℕ) → k ≤ m → 10 ^ k ≤ 10 ^ m
ten_mono zero m h = omega (arith, ten_positive m)
ten_mono (suc k) zero h = elim h [ ]
ten_mono (suc k) (suc m) h = omega (arith, ten_mono k m (omega arith))

digit_next : (k n d : ℕ) → n < 10 ^ k → isdigit d ≡ true → n * 10 + (d - b'0') < 10 ^ suc k
unfolding isdigit
digit_next k n d b h = let small : d ≤ b'9' = ground (arith, h) in omega (arith, b, small)

-- the digits of a count before a byte that is none
read_count-digits :
    (k n : ℕ) (ds rest : Bytes)
    → n < 10 ^ k
    → k + length ds ≤ 9
    → all_of isdigit ds ≡ true
    → ends_count rest ≡ true
    → (m : ℕ) × (read_count n (ds ++ rest) ≡ ok (m, rest))
unfolding read_count
read_count-digits k n [] [] b l h e = (n, refl)
read_count-digits k n [] (c ∷ cs) b l h e =
    let other : isdigit c ≡ false = ground (arith, e) in (n, rw other refl)
read_count-digits k n (d ∷ ds) rest b l h e =
    let first : isdigit d ≡ true = ground (arith, h) in
    let next = digit_next k n d b first in
    let fits : ltb (n * 10 + (d - b'0')) (2 ^ 31) ≡ true =
      lt→ltb _ _ (omega (arith, next, ten_mono (suc k) 9 (omega arith))) in
    let (m, ih) =
      read_count-digits (suc k) (n * 10 + (d - b'0')) ds rest next (omega arith) (ground (arith, h))
        e in
    (m, rw (first, fits) ih)

abbrev no_flag : Bytes → Bool
no_flag [] = true
no_flag (c ∷ cs) = not (is_flag c)

-- The flags are passed, with zeros that a width begins with.
record Flagged (ds rest : Bytes) (r : Directive × Bytes) : Type 0 where
  left : Bytes
  whole : r.1 ≡ left ++ rest
  digits : all_of isdigit left ≡ true
  shorter : length left ≤ length ds

flags-pass :
    (d : Directive) (fs ds rest : Bytes)
    → all_of is_flag fs ≡ true
    → all_of isdigit ds ≡ true
    → no_flag rest ≡ true
    → Flagged ds rest (read_flags d (fs ++ (ds ++ rest)))
unfolding read_flags
flags-pass d [] [] [] h k e = record {
  left = [];
  whole = refl;
  digits = refl;
  shorter = omega arith;
}
flags-pass d [] [] (c ∷ cs) h k e =
    let other : is_flag c ≡ false = ground (arith, e) in
    record { left = []; whole = rw other refl; digits = refl; shorter = omega arith }
flags-pass d [] (c ∷ ds) rest h k e = elim (Bool-cases (is_flag c)) [
  | inl x ↦
      let ih = flags-pass (flagged d c) [] ds rest refl (ground (arith, k)) e in
      record {
        left = ih.left;
        whole = rw x ih.whole;
        digits = ih.digits;
        shorter = let s = ih.shorter in omega (arith, s);
      }
  | inr x ↦ record { left = c ∷ ds; whole = rw x refl; digits = k; shorter = omega arith }
]
flags-pass d (f ∷ fs) ds rest h k e =
    let first : is_flag f ≡ true = ground (arith, h) in
    let ih = flags-pass (flagged d f) fs ds rest (ground (arith, h)) k e in
    record { left = ih.left; whole = rw first ih.whole; digits = ih.digits; shorter = ih.shorter }

-- what may stand behind the digits of a count
pub conv-plain :
    (c : ℕ)
    → is_conv c ≡ true
    → (isdigit c ≡ false) × (is_flag c ≡ false) × ((c == b'.') ≡ false) × ((c == b'%') ≡ false)
conv-plain c h = by_tests (isdigit c) (is_flag c) (c == b'.') (c == b'%') h
  where
    by_tests :
        (x y z w : Bool)
        → not (x || (y || (z || w))) ≡ true
        → (x ≡ false) × (y ≡ false) × (z ≡ false) × (w ≡ false)
    by_tests false false false false e = (refl, refl, refl, refl)
    by_tests true y z w e = cc e
    by_tests false true z w e = cc e
    by_tests false false true w e = cc e
    by_tests false false false true e = cc e

count-parts : (ds : Bytes) → is_count ds ≡ true → (all_of isdigit ds ≡ true) × (length ds ≤ 9)
count-parts ds h = by_test (all_of isdigit ds) h
  where
    by_test : (x : Bool) → (x && leb (length ds) 9) ≡ true → (x ≡ true) × (length ds ≤ 9)
    by_test true e = (refl, ground (arith, e))
    by_test false e = cc e

-- the precision and the conversion
read_prec-precision :
    (d : Directive) (prec : Option Bytes) (c : ℕ) (rest : Bytes)
    → is_precision prec ≡ true
    → is_conv c ≡ true
    → (d' : Directive) × (read_prec d (precision prec ++ c ∷ rest) ≡ ok (d', rest))
unfolding read_prec
read_prec-precision d none c rest p h = (record d { conv = c }, rw ((conv-plain c h).2) refl)
read_prec-precision d (some ds) c rest p h =
    let (digits, few) = count-parts ds p in
    let ends : ends_count (c ∷ rest) ≡ true = rw ((conv-plain c h).0) refl in
    let (m, e) =
      read_count-digits 0 0 ds (c ∷ rest) (omega arith) (omega (arith, few)) digits ends in
    (record d { prec = some m; conv = c }, rw e refl)

pub formed-parts :
    (flags width : Bytes) (prec : Option Bytes) (c : ℕ)
    → is_formed (directive flags width prec c) ≡ true
    → (all_of is_flag flags ≡ true)
      × (is_count width ≡ true)
      × (is_precision prec ≡ true)
      × (is_conv c ≡ true)
formed-parts flags width prec c h =
    by_tests (all_of is_flag flags) (is_count width) (is_precision prec) h
  where
    by_tests :
        (x y z : Bool)
        → (x && (y && (z && is_conv c))) ≡ true
        → (x ≡ true) × (y ≡ true) × (z ≡ true) × (is_conv c ≡ true)
    by_tests true true true e = (refl, refl, refl, e)
    by_tests false y z e = cc e
    by_tests true false z e = cc e
    by_tests true true false e = cc e

behind-count :
    (prec : Option Bytes) (c : ℕ) (rest : Bytes)
    → is_conv c ≡ true
    → (no_flag (precision prec ++ c ∷ rest) ≡ true)
      × (ends_count (precision prec ++ c ∷ rest) ≡ true)
unfolding isdigit
behind-count none c rest h =
    (rw ((conv-plain c h).1) refl, unfold isdigit in rw ((conv-plain c h).0) refl)
behind-count (some ds) c rest h = (refl, refl)

-- a directive that is well formed is read to its end
pub read_directive-written :
    (flags width : Bytes) (prec : Option Bytes) (c : ℕ) (rest : Bytes)
    → is_formed (directive flags width prec c) ≡ true
    → (d : Directive) × (read_directive (flags ++ (width ++ (precision prec ++ c ∷ rest)))
        ≡ ok (d, rest))
unfolding read_directive
read_directive-written flags width prec c rest h =
    let behind = precision prec ++ c ∷ rest in
    let (hf, hw, hp, hc) = formed-parts flags width prec c h in
    let (plain, ends) = behind-count prec c rest hc in
    let (digits, few) = count-parts width hw in
    let r = read_flags bare (flags ++ (width ++ behind)) in
    let passed = flags-pass bare flags width behind hf digits plain in
    let short = passed.shorter in
    let (m, counted) =
      read_count-digits 0 0 passed.left behind (omega arith) (omega (arith, few, short))
        passed.digits ends in
    let (d, e) = read_prec-precision (record r.0 { width = m }) prec c rest hp hc in
    (d, rw passed.whole (rw counted e))
