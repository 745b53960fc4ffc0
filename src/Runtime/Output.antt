-- ===== src/Runtime/Output.antt =====
-- runtime/hcrt.c: the output buffer and the fields of `Print`.
pub mod Growth
pub mod Fields
pub mod Quoted
use hlang.Base.{
  ℕ, zero, suc, ◌+◌, ◌-◌, ◌*◌, ◌/◌, ◌%◌, Bool, true, false, ◌&&◌, ◌||◌, List, [], ◌∷◌, ◌++◌, Bytes,
  if◌then◌else◌, ◌==◌, ltb, leb, length, codes,
}

-- `HCOut`, with what it has written to the standard output: `buf` holds the first `len` bytes of the
-- allocation of `cap` bytes.
pub record HcOut : Type 0 where
  pub buf : Bytes
  pub cap : ℕ
  pub to_stdout : Bool
  pub printed : Bytes

abbrev pub empty_out : HcOut
empty_out = record { buf = []; cap = 0; to_stdout = false; printed = [] }

abbrev pub stdout_out : HcOut
stdout_out = record { buf = []; cap = 0; to_stdout = true; printed = [] }

-- the loop that doubles the capacity, over fuel
unfoldable pub grow : ℕ → ℕ → ℕ → ℕ
grow zero need nc = nc
grow (suc n) need nc = let rest = grow n need (nc * 2) in if ltb nc need then rest else nc

-- `out_emit`; an allocation that is needed is made
unfoldable pub out_emit : HcOut → Bytes → HcOut
unfolding grow
out_emit o s =
    let need = length o.buf + length s + 1 in
    let nc = if o.cap == 0 then 64 else o.cap in
    if o.to_stdout
    then record o { printed = o.printed ++ s }
    else record o { buf = o.buf ++ s; cap = if ltb o.cap need then grow need need nc else o.cap }

-- `out_pad`
unfoldable pub out_pad : HcOut → ℕ → ℕ → HcOut
unfolding out_emit
out_pad o c zero = o
out_pad o c (suc n) = out_pad (out_emit o (c ∷ [])) c n

-- `hex[v % base]`
unfoldable pub digit_char : Bool → ℕ → ℕ
digit_char upper d =
    if ltb d 10 then b'0' + d else if upper then b'A' + (d - 10) else b'a' + (d - 10)

-- The digits of a number in the order they are found, the last first, over fuel.
unfoldable pub digits_of : ℕ → ℕ → Bool → ℕ → Bytes
unfolding digit_char
digits_of zero base upper v = []
digits_of (suc n) base upper v =
    let rest = digits_of n base upper (v / base) in
    if v == 0 then [] else digit_char upper (v % base) ∷ rest

-- The digits from the first on, the last of them with the index `i`: with grouping a comma stands
-- behind a digit whose index is a multiple of three but not 0.
unfoldable pub lay_out : Bool → ℕ → Bytes → Bytes
lay_out commas i [] = []
lay_out commas i (d ∷ ds) =
    lay_out commas (suc i) ds ++ d ∷ (if commas && (ltb 0 i && i % 3 == 0) then b',' ∷ [] else [])

-- `int_body`, of a `uint64_t` and a base from 2 on: the buffer `digits` has 64 bytes.
unfoldable pub int_body : ℕ → ℕ → Bool → Bool → Bool → Bytes
unfolding digits_of lay_out
int_body v base upper commas neg =
    (if neg then b'-' ∷ [] else [])
    ++ lay_out (commas && base == 10) 0 (if v == 0 then b'0' ∷ [] else digits_of 64 base upper v)

-- the sign that `fmt_field` keeps before zeros
unfoldable pub sign_of : Bytes → Bytes
sign_of [] = []
sign_of (c ∷ cs) = if c == b'-' || c == b'+' then c ∷ [] else []

unfoldable pub drop_sign : Bytes → Bytes
drop_sign [] = []
drop_sign (c ∷ cs) = if c == b'-' || c == b'+' then cs else c ∷ cs

-- `fmt_field`
unfoldable pub fmt_field : HcOut → Bytes → ℕ → Bool → Bool → HcOut
unfolding out_emit out_pad sign_of drop_sign
fmt_field o body width left zero_fill =
    let pad = width - length body in
    if leb width (length body)
    then out_emit o body
    else if left
    then out_pad (out_emit o body) b' ' pad
    else if zero_fill
    then out_emit
        (out_pad (if length (sign_of body) == 0 then o else out_emit o (sign_of body)) b'0' pad)
        (drop_sign body)
    else out_emit (out_pad o b' ' pad) body

-- `emit_packed_chars`, of the first `n` bytes of a number
unfoldable pub emit_packed_chars : ℕ → HcOut → ℕ → HcOut
unfolding out_emit
emit_packed_chars zero o v = o
emit_packed_chars (suc n) o v =
    emit_packed_chars n (if v % 256 == 0 then o else out_emit o (v % 256 ∷ [])) (v / 256)

-- the loop of `%Q`, a byte at a time
unfoldable pub quoted_out : HcOut → ℕ → HcOut
unfolding out_emit
quoted_out o c =
    if c == b'"' || c == b'\\'
    then out_emit (out_emit o (b'\\' ∷ [])) (c ∷ [])
    else if c == 10
    then out_emit o (codes "\\n")
    else out_emit o (c ∷ [])

unfoldable pub emit_quoted : HcOut → Bytes → HcOut
unfolding quoted_out
emit_quoted o [] = o
emit_quoted o (c ∷ cs) = emit_quoted (quoted_out o c) cs
