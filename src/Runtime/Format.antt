-- ===== src/Runtime/Format.antt =====
-- runtime/hcrt.c: `hc_format`, the loop of `Print`, and the dates it writes. What is undefined: a
-- format read behind its end, a width beyond an `int`, a field read behind its buffer, an index that
-- overflows.
pub mod Breaks
pub mod Ends
pub mod Numbers
pub mod Pieces
pub mod Total
use hlang.Base.{
  ℕ, zero, suc, ◌+◌, ◌-◌, ◌*◌, ◌/◌, ◌%◌, ◌^◌, Bool, true, false, ◌&&◌, ◌||◌, not, List, [], ◌∷◌,
  ◌++◌, Bytes, Option, none, some, if◌then◌else◌, ◌==◌, ltb, leb, length, codes, isdigit, take,
}
use hlang.Base.Int.{ℤ, pos, ◌-ℤ◌}
use hlang.Runtime.Date.{civil_day}
use hlang.Run.{Run, ok, undefined, out_of_fuel, ◌>>=◌}
use hlang.Runtime.Output.{
  HcOut, empty_out, out_emit, int_body, fmt_field, emit_packed_chars, emit_quoted,
}

-- the locals of one round of the loop; `prec` is -1 where there is none
pub record Directive : Type 0 where
  pub left : Bool
  pub zero_fill : Bool
  pub commas : Bool
  pub plus : Bool
  pub width : ℕ
  pub prec : Option ℕ
  pub conv : ℕ

abbrev pub bare : Directive
bare = record {
  left = false;
  zero_fill = false;
  commas = false;
  plus = false;
  width = 0;
  prec = none;
  conv = 0;
}

-- the loop over the flags
abbrev pub flagged : Directive → ℕ → Directive
flagged d c =
    if c == b'-'
    then record d { left = true }
    else if c == b'0'
    then record d { zero_fill = true }
    else if c == b','
    then record d { commas = true }
    else record d { plus = true }

unfoldable pub read_flags : Directive → Bytes → Directive × Bytes
read_flags d [] = (d, [])
read_flags d (c ∷ cs) =
    let more = read_flags (flagged d c) cs in
    if c == b'-' || (c == b'0' || (c == b',' || c == b'+')) then more else (d, c ∷ cs)

-- the loops over the digits of a width or a precision, which is an `int`
unfoldable pub read_count : ℕ → Bytes → Run (ℕ × Bytes)
unfolding isdigit
read_count n [] = ok (n, [])
read_count n (c ∷ cs) =
    let n' = n * 10 + (c - b'0') in
    let more = if ltb n' (2 ^ 31) then read_count n' cs else undefined in
    if isdigit c then more else ok (n, c ∷ cs)

-- The byte that says what to write. At the end of the format the code writes the zero byte and goes
-- on behind it.
abbrev pub read_conv : Directive → Bytes → Run (Directive × Bytes)
read_conv d [] = undefined
read_conv d (c ∷ cs) = ok (record d { conv = c }, cs)

-- the precision, and that byte
unfoldable pub read_prec : Directive → Bytes → Run (Directive × Bytes)
unfolding read_count
read_prec d [] = undefined
read_prec d (c ∷ cs) =
    let given = read_count 0 cs >>= λ (n, rest). read_conv (record d { prec = some n }) rest in
    if c == b'.' then given else read_conv d (c ∷ cs)

-- one directive, behind its percent sign
unfoldable pub read_directive : Bytes → Run (Directive × Bytes)
unfolding read_flags read_count read_prec
read_directive cs = do
  let (d, rest) = read_flags bare cs
  (n, after) ← read_count 0 rest
  read_prec (record d { width = n }) after

-- `NEXT_ARG`, and what is left
abbrev pub next_arg : List ℕ → ℕ × List ℕ
next_arg [] = (0, [])
next_arg (a ∷ args) = (a, args)

-- the text of a signed number: `%d`
unfoldable pub signed_body : ℕ → Bool → Bool → Bytes
unfolding int_body
signed_body w commas plus =
    let neg = not (ltb w (2 ^ 63)) in
    let body = int_body (if neg then 2 ^ 64 - w else w) 10 false commas neg in
    if plus && not neg then b'+' ∷ body else body

-- The text at an address is `text_at`, and what `snprintf` makes of a number is `float_text` for a
-- sign, a precision, a conversion and a double, `hex16` for `%016llX`, and `digits2` and `digits4`
-- for `%02llu` and `%04lld`. Room for 512 bytes is at `tmp`.
module _ (text_at : ℕ → Bytes) (float_text : Bool → ℕ → ℕ → ℕ → Bytes) (hex16 digits2 : ℕ → Bytes)
    (digits4 : ℤ → Bytes) where
  -- the list of `%z`: as many texts on as the index says, up to an empty one
  unfoldable pub list_item : ℕ → ℕ → Bytes
  list_item zero at = text_at at
  list_item (suc n) at =
      let next = list_item n (at + length (text_at at) + 1) in
      if length (text_at at) == 0 then [] else next

  -- `fmt_date`: the time of day, and the day of the proleptic Gregorian calendar
  unfoldable pub time_text : ℕ → Bytes
  time_text w =
      let secs = w % 2 ^ 32 * 86400 / 2 ^ 32 in
      digits2 (secs / 3600) ++ (b':' ∷ digits2 (secs / 60 % 60) ++ (b':' ∷ digits2 (secs % 60)))

  unfoldable pub date_text : ℕ → Bytes
  unfolding civil_day
  date_text w =
      let c =
        civil_day (if ltb w (2 ^ 63) then pos (w / 2 ^ 32) else pos (w / 2 ^ 32) -ℤ pos (2 ^ 32)) in
      digits2 c.month ++ (b'/' ∷ digits2 c.day ++ (b'/' ∷ digits4 c.year))

  -- The cases of the switch that write a field, and the arguments that are left: there is no text where
  -- the code reads behind the 512 bytes. `none` is for the other bytes.
  unfoldable pub converted : Directive → List ℕ → Option (Option Bytes × List ℕ)
  unfolding signed_body int_body emit_packed_chars emit_quoted list_item
  converted d args =
      let (a, more) = next_arg args in
      let text = if a == 0 then codes "(null)" else text_at a in
      let cut : Bytes = elim d.prec [
        | none ↦ text
        | some n ↦ if ltb n (length text) then take n text else text
      ] in
      let precision : ℕ = elim d.prec [ none ↦ 6 | some n ↦ n ] in
      let float = float_text d.plus precision d.conv a in
      let kept =
        if ltb (length float) 512
        then some float
        else if length float == 512
        then some (take 511 float ++ 0 ∷ [])
        else none in
      if d.conv == b'd' || d.conv == b'i'
      then some (some (signed_body a d.commas d.plus), more)
      else if d.conv == b'u'
      then some (some (int_body a 10 false d.commas false), more)
      else if d.conv == b'x' || d.conv == b'X'
      then some (some (int_body a 16 (d.conv == b'X') false false), more)
      else if d.conv == b'p' || d.conv == b'P'
      then some (some (hex16 a), more)
      else if d.conv == b'c'
      then some (some (emit_packed_chars 8 empty_out a).buf, more)
      else if d.conv == b's'
      then some (some cut, more)
      else if d.conv == b'q' || d.conv == b'Q'
      then some (some (emit_quoted empty_out (if a == 0 then [] else text_at a)).buf, more)
      else if d.conv == b'f' || (d.conv == b'e' || d.conv == b'g')
      then some (kept, more)
      else none

  -- One directive: what it writes and the arguments that are left. The loop of `%z` counts its index
  -- down first, which overflows at -(2 ^ 63).
  unfoldable pub perform : HcOut → Directive → List ℕ → Run (HcOut × List ℕ)
  unfolding converted time_text date_text fmt_field out_emit list_item
  perform o d args =
      let (a, more) = next_arg args in
      let (b, last) = next_arg more in
      let zeros =
        d.zero_fill
        && not (d.conv == b'c' || (d.conv == b's' || (d.conv == b'q' || d.conv == b'Q'))) in
      let item = list_item (if ltb a (2 ^ 63) then a else 0) b in
      let indexed : Run (HcOut × List ℕ) =
        if a == 2 ^ 63 then undefined else ok (fmt_field o item d.width d.left false, last) in
      let other : Run (HcOut × List ℕ) =
        if d.conv == b'z'
        then (if b == 0 then ok (o, last) else indexed)
        else if d.conv == b'D'
        then ok (out_emit o (date_text a), more)
        else if d.conv == b'T'
        then ok (out_emit o (time_text a), more)
        else ok (out_emit (out_emit o (b'%' ∷ [])) (d.conv ∷ []), args) in
      elim (converted d args) [
        | none ↦ other
        | some (none, left) ↦ undefined
        | some (some s, left) ↦ ok (fmt_field o s d.width d.left zeros, left)
      ]

  -- `hc_format`, over fuel
  unfoldable pub format_loop : ℕ → HcOut → Bytes → List ℕ → Run HcOut
  unfolding read_directive perform out_emit
  format_loop zero o cs args = out_of_fuel
  format_loop (suc n) o [] args = ok o
  format_loop (suc n) o (c ∷ []) args =
      let rest = format_loop n (out_emit o (c ∷ [])) [] args in if c == b'%' then ok o else rest
  format_loop (suc n) o (c ∷ e ∷ cs) args =
      let rest = format_loop n (out_emit o (c ∷ [])) (e ∷ cs) args in
      let percent = format_loop n (out_emit o (b'%' ∷ [])) cs args in
      let directive = read_directive (e ∷ cs) >>= λ (d, after).
      perform o d args >>= λ (o', left). format_loop n o' after left in
      if c == b'%' then (if e == b'%' then percent else directive) else rest

  -- `hc_format`, of a format that is not null
  unfoldable pub hc_format : HcOut → Bytes → List ℕ → Run HcOut
  unfolding format_loop
  hc_format o cs args = format_loop (length cs + 1) o cs args
