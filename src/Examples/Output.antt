-- ===== src/Examples/Output.antt =====
-- Concrete output of the runtime, and constants of the code generator.
use hlang.Base.{
  ℕ, ◌+◌, ◌*◌, ◌⊎◌, ◌-◌, ◌≤◌, ◌<◌, ◌^◌, ◌≡◌, refl, true, false, Bool, List, [], ◌∷◌, ◌++◌, Bytes,
  none, some, arith, codes, max, length, isdigit, ◌%◌,
}
use hlang.Base.Int.{pos, negsuc, signed64, pattern64}
use hlang.Run.{ok, undefined}
use hlang.Token.{blank, int_lit, plus, star, minus}
use hlang.Ast
use hlang.Ast.{Expr, unary, binary, int, i64}
use hlang.Scan.{advance, is_word}
use hlang.Scan.Literal.{lex_chars}
use hlang.Scan.Number.{lex_number}
use hlang.Lexer.{start_pos}
use hlang.Examples.{spot}
use hlang.Parser.Constant
use hlang.Runtime.Output.{HcOut, stdout_out, empty_out, out_emit, fmt_field, emit_quoted, int_body}
use hlang.Runtime.Output.Fields.{Wrote, field, fmt_field-field}
use hlang.Runtime.Output.Growth.{Grown, out_emit-fits}
use hlang.Runtime.Output.Quoted.{lex_chars-emit_quoted}
use hlang.Runtime.Format.{hc_format}
use hlang.Runtime.Format.Breaks.{hc_format-breaks}
use hlang.Runtime.Format.Pieces.{Piece, byte, percent, directive}
use hlang.Runtime.Format.Numbers.{lex_number-int_body}
use hlang.Runtime.Bits.{bts, btr, btc}
use hlang.Runtime.Bits.Laws.{Changes, bits-Changes}
use hlang.Codegen.Constant.{narrow, eval_const}
use hlang.Codegen.Constant.Agreement.{prefixed, eval_const-agrees}
use hlang.Codegen.Constant.Casts.{is_value, narrow-range}
use hlang.Codegen.Types.{Scopes, type_of}
use hlang.Codegen.Types.Constants.{integral, type_of-constant}

-- texts at addresses and what `snprintf` might make of numbers
abbrev no_text : ℕ → Bytes
no_text a = []

abbrev no_float : Bool → ℕ → ℕ → ℕ → Bytes
no_float sign prec conv raw = []

abbrev sample : Bytes
sample = codes "ab"

abbrev used : HcOut
used = record { buf = sample; cap = 64; to_stdout = false; printed = [] }

out_emit-fits_example :
    ((out_emit used (codes "cd")).buf ≡ sample ++ codes "cd")
    × (length (out_emit used (codes "cd")).buf < (out_emit used (codes "cd")).cap)
    × (((2 + 2 + 1 ≤ 64) × ((out_emit used (codes "cd")).cap ≡ 64))
        ⊎ Grown 64 (2 + 2 + 1) (out_emit used (codes "cd")).cap)
out_emit-fits_example = out_emit-fits used (codes "cd") refl

fmt_field-field_example :
    Wrote stdout_out
      (field (codes "-12") 6 false true)
      (fmt_field stdout_out (codes "-12") 6 false true)
    × (length (field (codes "-12") 6 false true) ≡ max 3 6)
fmt_field-field_example = fmt_field-field stdout_out (codes "-12") 6 false true

lex_chars-emit_quoted_example :
    lex_chars b'"' ((emit_quoted empty_out (codes "a\"b\n")).buf ++ b'"' ∷ codes ";") start_pos
    ≡ record {
      text = codes "a\"b\n";
      faults = [];
      rest = (
        codes ";",
        advance ((emit_quoted empty_out (codes "a\"b\n")).buf ++ b'"' ∷ []) start_pos,
      );
    }
lex_chars-emit_quoted_example = lex_chars-emit_quoted (codes "a\"b\n") (codes ";") start_pos refl

lex_number-int_body_example :
    lex_number spot (int_body 1234 10 false false false ++ codes ";", start_pos) ≡ (
      record (blank spot) { kind = int_lit; ival = signed64 1234 },
      (codes ";", advance (int_body 1234 10 false false false) start_pos),
    )
unfolding is_word
lex_number-int_body_example = lex_number-int_body spot 1234 (codes ";") start_pos (omega arith) refl

-- "x=%-5.2d%%"
abbrev pieces : List Piece
pieces =
    byte b'x' ∷ byte b'=' ∷ directive (codes "-") (codes "5") (some (codes "2")) b'd' ∷ percent ∷ []

hc_format-breaks_example :
    hc_format no_text no_float no_text no_text
      (λ y. [])
      stdout_out
      (codes "x=" ++ b'%' ∷ (codes "-" ++ codes "5"))
      (7 ∷ [])
    ≡ undefined
unfolding isdigit
hc_format-breaks_example =
    hc_format-breaks no_text no_float no_text no_text (λ y. []) stdout_out (codes "x=") (codes "-")
      (codes "5") (7 ∷ []) refl refl refl (omega arith)

bits-Changes_example :
    Changes bts (λ b. 1) (5 ∷ 9 ∷ []) 9 11
    × Changes btr (λ b. 0) (5 ∷ 9 ∷ []) 9 11
    × Changes btc (λ b. 1 - b) (5 ∷ 9 ∷ []) 9 11
bits-Changes_example = bits-Changes (5 ∷ 9 ∷ []) 9 11 refl (omega arith)

-- 2 + 3 * -4
abbrev constant : Expr
constant =
    binary spot plus (Ast.int_lit spot (pos 2)) (
      binary spot star (Ast.int_lit spot (pos 3))
        (unary spot minus true (Ast.int_lit spot (pos 4))))

-- 2 + 3 * -sizeof(U32), before and behind a class that is declared in between
abbrev sized : Expr
sized = binary spot plus (Ast.int_lit spot (pos 2)) (
    binary spot star (Ast.int_lit spot (pos 3))
      (unary spot minus true (Ast.sizeof_type spot (int 4 true))))

abbrev declared : Ast.ClassInfo
declared = record {
  name = codes "C";
  is_union = false;
  base = none;
  whole_type = none;
  members = [];
  size = pos 0;
  complete = false;
}

abbrev nowhere : Scopes
nowhere = record { scopes = []; local_names = []; globals = [] }

eval_const-agrees_example :
    eval_const (λ x. none) (declared ∷ []) (λ x. none) 0 sized ≡ ok (some (negsuc 9))
unfolding Constant.eval_const prefixed
eval_const-agrees_example =
    eval_const-agrees (λ x. none) [] (declared ∷ []) (λ x. none) 0 sized (negsuc 9) refl
      (tt, (tt, unfold Ast.size in refl)) refl

narrow-range_example :
    (is_value 1 false (narrow 1 false (pos 200)) ≡ true)
    × (pattern64 (narrow 1 false (pos 200)) % 2 ^ (1 * 8) ≡ pattern64 (pos 200) % 2 ^ (1 * 8))
narrow-range_example = narrow-range 1 false (pos 200) (omega arith) (omega arith)

type_of-constant_example : type_of [] nowhere (λ n. none) 0 constant ≡ ok i64
unfolding eval_const integral
type_of-constant_example =
    type_of-constant (λ x. none) [] (λ x. none) 0 nowhere (λ n. none) constant (negsuc 9) refl refl
