-- ===== src/Scan/Lexeme/Characters.antt =====
-- src/lexer.cpp: the integer that `lexToken` packs a character literal into.
use hlang.Base.{
  ℕ, zero, suc, ◌+◌, ◌*◌, ◌/◌, ◌%◌, ◌^◌, ◌<◌, ◌≤◌, ◌≡◌, refl, Bool, true, [], ◌∷◌, ◌++◌, Bytes,
  arith, length, all_of, ltb, some,
}
use hlang.Base.Int.{signed64}
use hlang.Token.{SrcLoc, blank, char_lit}
use hlang.Scan.{Pos, step_pos, advance}
use hlang.Scan.Literal.Quoting.{write_bytes, lex_chars-write}
use hlang.Scan.Lexeme.{lex_token, lex_char, pack_chars}

-- the bytes of a number, the lowest first
abbrev pub unpack : ℕ → ℕ → Bytes
unpack zero v = []
unpack (suc n) v = v % 256 ∷ unpack n (v / 256)

abbrev pub all_bytes : Bytes → Bool
all_bytes = all_of (λ c. ltb c 256)

pow_positive : (w : ℕ) → 0 < 256 ^ w
pow_positive zero = omega arith
pow_positive (suc w) = omega (arith, pow_positive w)

pack_chars-lt : (s : Bytes) (w : ℕ) → all_bytes s ≡ true → length s ≤ w → pack_chars s < 256 ^ w
unfolding pack_chars
pack_chars-lt [] w b h = pow_positive w
pack_chars-lt (c ∷ cs) zero b h = absurd (omega (arith, h))
pack_chars-lt (c ∷ cs) (suc w) b h =
    let byte : c < 256 = ground (arith, b) in
    omega (arith, byte, pack_chars-lt cs w (ground (arith, b)) (omega (arith, h)))

unpack-pack_chars :
    (s : Bytes) → all_bytes s ≡ true → length s ≤ 8 → unpack (length s) (pack_chars s) ≡ s
unfolding pack_chars
unpack-pack_chars [] b h = refl
unpack-pack_chars (c ∷ cs) b h =
    let byte : c < 256 = ground (arith, b) in
    let rest : pack_chars cs < 256 ^ 7 =
      pack_chars-lt cs 7 (ground (arith, b)) (omega (arith, h)) in
    let low : (pack_chars cs * 256 + c) % 2 ^ 64 % 256 ≡ c = omega (arith, byte, rest) in
    let high : (pack_chars cs * 256 + c) % 2 ^ 64 / 256 ≡ pack_chars cs =
      omega (arith, byte, rest) in
    rw (low, high, unpack-pack_chars cs (ground (arith, b)) (omega (arith, h))) refl

-- A text of up to 8 bytes, written between single quotes, is lexed to a character literal with no
-- complaint: it holds the text and the `int64_t` of the number whose bytes are the text, the first byte
-- lowest, with no others above them, and the input behind the closing quote is left.
pub lex_token-write :
    (l : SrcLoc) (s rest : Bytes) (p : Pos)
    → all_bytes s ≡ true
    → length s ≤ 8
    → (v : ℕ) × (unpack (length s) v ≡ s)
      × (v < 256 ^ length s)
      × (lex_token l b'\'' (write_bytes b'\'' s ++ b'\'' ∷ rest) p ≡ record {
        token = some (record (blank l) { kind = char_lit; text = s; ival = signed64 v });
        complaints = [];
        rest = (rest, advance (b'\'' ∷ (write_bytes b'\'' s ++ b'\'' ∷ [])) p);
      })
unfolding lex_token lex_char advance
lex_token-write l s rest p b h = (
  pack_chars s,
  unpack-pack_chars s b h,
  pack_chars-lt s (length s) b (omega arith),
  rw (lex_chars-write b'\'' s rest (step_pos b'\'' p) refl) (ground (arith, h)),
)
