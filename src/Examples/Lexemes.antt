-- ===== src/Examples/Lexemes.antt =====
-- The theorems on lexemes and skipped text at concrete inputs.
use hlang.Base.{ℕ, ◌<◌, ◌^◌, ◌≡◌, refl, true, [], ◌∷◌, ◌++◌, Bytes, some, codes, arith, isxdigit}
use hlang.Base.Int.{signed64}
use hlang.Token.{blank, shl_eq, int_lit, char_lit}
use hlang.Token.Spelling.{punct_str}
use hlang.Scan.{step_pos, advance, is_word}
use hlang.Scan.Consumption.{Took}
use hlang.Scan.Lexeme.{lex_token}
use hlang.Scan.Lexeme.Characters.{unpack, lex_token-write}
use hlang.Scan.Literal.{lex_chars}
use hlang.Scan.Literal.Quoting.{write_bytes, lex_chars-write}
use hlang.Scan.Number.{lex_number}
use hlang.Scan.Number.Decimal.{dec_digits, lex_number-dec_digits}
use hlang.Scan.Number.Hexadecimal.{hex_digits, lex_number-hex_digits}
use hlang.Scan.Progress.{lex_token-Took}
use hlang.Scan.Symbol.Spelling.{read_punct, read-punct_str}
use hlang.Lexer.{start_pos}
use hlang.Lexer.Regions.{skip_region}
use hlang.Lexer.Regions.Quotes.{skip_region-quoted_hash}
use hlang.Lexer.Regions.Stops.{at_stop, skip_region-Took}
use hlang.Examples.{spot}

lex_chars-write_example :
    lex_chars b'"' (write_bytes b'"' (codes "a\"b$\\") ++ b'"' ∷ codes ";") start_pos ≡ record {
      text = codes "a\"b$\\";
      faults = [];
      rest = (codes ";", advance (write_bytes b'"' (codes "a\"b$\\") ++ b'"' ∷ []) start_pos);
    }
lex_chars-write_example = lex_chars-write b'"' (codes "a\"b$\\") (codes ";") start_pos refl

lex_token-Took_example :
    Took (codes "12+y", step_pos b'x' start_pos) (lex_token spot b'x' (codes "12+y") start_pos).rest
lex_token-Took_example = lex_token-Took spot b'x' (codes "12+y") start_pos

read-punct_str_example : read_punct (punct_str shl_eq ++ codes " x") ≡ some (shl_eq, codes " x")
read-punct_str_example = read-punct_str shl_eq (codes " x") (λ h. cc h) (λ h. cc h) refl

skip_region-quoted_hash_example :
    skip_region 20 (b'"' ∷ (codes "see " ++ b'#' ∷ codes "else\"")) start_pos
    ≡ ([], (b'#' ∷ codes "else\"", advance (b'"' ∷ codes "see ") start_pos))
skip_region-quoted_hash_example =
    skip_region-quoted_hash (codes "see ") (codes "else\"") 20 start_pos refl (omega arith)

abbrev region : Bytes
region = codes "x 'y' /* * */ // z\n#endif"

skip_region-Took_example :
    Took (region, start_pos) (skip_region 26 region start_pos).1
    × (at_stop (skip_region 26 region start_pos).1 ≡ true)
skip_region-Took_example = skip_region-Took 26 region start_pos (omega arith)

lex_number-hex_digits_example :
    lex_number spot (codes "0x" ++ (hex_digits 4 48879 ++ codes ";"), start_pos) ≡ (
      record (blank spot) { kind = int_lit; ival = signed64 48879 },
      (codes ";", advance (codes "0x" ++ hex_digits 4 48879) start_pos),
    )
unfolding isxdigit
lex_number-hex_digits_example =
    lex_number-hex_digits spot 4 48879 (codes ";") start_pos (omega arith) (omega arith) refl

lex_number-dec_digits_example : lex_number spot (dec_digits 3 407 ++ codes ";", start_pos) ≡ (
  record (blank spot) { kind = int_lit; ival = signed64 407 },
  (codes ";", advance (dec_digits 3 407) start_pos),
)
unfolding is_word
lex_number-dec_digits_example =
    lex_number-dec_digits spot 3 407 (codes ";") start_pos (omega arith) (omega arith)
      (ground arith)

lex_token-write_example :
    (v : ℕ) × (unpack 3 v ≡ codes "a'b")
    × (v < 256 ^ 3)
    × (lex_token spot b'\'' (write_bytes b'\'' (codes "a'b") ++ b'\'' ∷ codes ";") start_pos
        ≡ record {
          token =
              some (record (blank spot) { kind = char_lit; text = codes "a'b"; ival = signed64 v });
          complaints = [];
          rest = (
            codes ";",
            advance (b'\'' ∷ (write_bytes b'\'' (codes "a'b") ++ b'\'' ∷ [])) start_pos,
          );
        })
lex_token-write_example =
    lex_token-write spot (codes "a'b") (codes ";") start_pos refl (omega arith)
