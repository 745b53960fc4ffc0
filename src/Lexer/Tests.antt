-- ===== src/Lexer/Tests.antt =====
-- Runs of the lexer on small texts.
use hlang.Base.{ℕ, zero, suc, ◌≡◌, refl, true, List, [], ◌∷◌, Bytes, none, codes, if◌then◌else◌}
use hlang.Base.Int.{ℤ, pos}
use hlang.Run.{Run, ok, ◌>>=◌}
use hlang.Token.{eof, ◌=tok◌}
use hlang.Lexer.{Lexer, Host, from_buffer}
use hlang.Lexer.Raw.{next}

abbrev quiet : Host
quiet = record {
  open_file = λ p. none;
  date = codes "01/02/2003";
  time = codes "04:05:06";
  exe_hook = none;
  float_int = λ t. none;
}

-- some tokens, by text and value
read : ℕ → Lexer → Run (List (Bytes × ℤ))
unfolding next
read zero lx = ok []
read (suc n) lx = next 60 quiet lx >>= λ (t, lx').
    let more = read n lx' >>= λ ts. ok ((t.text, t.ival) ∷ ts) in
    if◌then◌else◌ (t.kind =tok eof) (ok []) more

macros_and_conditions :
    read 9 (
      from_buffer
        (codes "#define A 0x1F\n#if defined(A) && 2+1&3 == 3\nA B #else C\n#endif\nD")
        (codes "t")
        true)
    ≡ ok (([], pos 31) ∷ (codes "B", pos 0) ∷ (codes "D", pos 0) ∷ [])
unfolding read from_buffer
macros_and_conditions = refl
