-- ===== src/Examples.antt =====
-- The theorems on the preprocessor at concrete inputs.
pub mod Classes
pub mod Lexemes
pub mod Output
pub mod Parsing
pub mod Running
use hlang.Base.{
  ℕ, zero, suc, ◌≤◌, ◌≡◌, ◌↔◌, refl, true, false, List, [], ◌∷◌, ◌++◌, Bytes, Option, none, some,
  codes, arith, bytes_eq, isxdigit, ◌*◌, ◌%◌, ◌^◌,
}
use hlang.Base.Dict.{lookup}
use hlang.Base.Int.{ℤ, pos, signed64}
use hlang.Run.{ok, undefined, out_of_fuel}
use hlang.Token.{Token, SrcLoc, blank, shl_eq, int_lit, char_lit, punct, star, l_paren, r_paren, is}
use hlang.Token.Spelling.{punct_str}
use hlang.Scan.{step_pos, advance, is_word}
use hlang.Scan.Consumption.{Took}
use hlang.Scan.Lexeme.{lex_token}
use hlang.Scan.Lexeme.Characters.{unpack, lex_token-write}
use hlang.Scan.Literal.{lex_chars}
use hlang.Scan.Literal.Quoting.{write_bytes, lex_chars-write}
use hlang.Scan.Number.{lex_number}
use hlang.Scan.Number.Decimal.{dec_digits, lex_number-dec_digits}
use hlang.Scan.Number.Hexadecimal.{hex_digits, lex_number-hex_digits}
use hlang.Scan.Progress.{lex_token-Took}
use hlang.Scan.Symbol.Spelling.{read_punct, read-punct_str}
use hlang.Lexer.{Lexer, Host, start_pos, from_buffer, include_paths, open_include}
use hlang.Lexer.Search.{Searched, open_include-Searched}
use hlang.Lexer.CondEval
use hlang.Lexer.CondEval.{expr}
use hlang.Lexer.CondEval.Meaning.{run-spell}
use hlang.Lexer.CondEval.Parenthesised.{
  Tree, lit, sign, join, negate, add, band, left, sub, times, meaning, spell,
}
use hlang.Lexer.CondEval.SelfReference.{IsSelfNamed, expr_self}
use hlang.Lexer.Conds.Nesting.{Doc, done, item, ifdef_else, if_end, text, run, lines, run-lines}
use hlang.Lexer.Expand.{builtin_macro, contains, expand}
use hlang.Lexer.Expand.Termination.{free, expand_total}
use hlang.Lexer.Directives.Macros.{Change, defining, removing, changes, body_behind, lookup-changes}
use hlang.Lexer.Raw.{next}
use hlang.Lexer.Raw.Reexpansion.{word, waiting, next-waiting}
use hlang.Lexer.Regions.{skip_region}
use hlang.Lexer.Regions.Quotes.{skip_region-quoted_hash}
use hlang.Lexer.Regions.Stops.{at_stop, skip_region-Took}
use hlang.Ast.{Ty, int, ptr, class, ClassInfo, Store, Member, find_member, own_member, size}
use hlang.Ast.Layout.{complete_class, base_size}
use hlang.Ast.Layout.Packing.{IsPacked, complete_class-IsPacked}
use hlang.Ast.Layout.Overlay.{IsOverlaid, complete_class-IsOverlaid}
use hlang.Ast.Members.{IsRanked, find_member_total, find_member-own_base}
use hlang.Parser.{Parser, looks_like_cast, parse_base_type}
use hlang.Parser.Casts.{parse_base_type-looks_like_cast}
use hlang.Parser.Constant.{eval_const}

abbrev pub spot : SrcLoc
spot = record { file = codes "t.HC"; line = 1; col = 1 }

abbrev pub no_float : Bytes → Option ℤ
no_float t = none

abbrev host : Host
host = record {
  open_file = λ p. none;
  date = codes "01/02/2003";
  time = codes "04:05:06";
  exe_hook = none;
  float_int = no_float;
}

-- (2 + ((1) & -(3)))
abbrev tree : Tree
tree = join add (lit (pos 2)) (join band (lit (pos 1)) (sign negate (lit (pos 3))))

run-spell_example : CondEval.run no_float [] 3 (spell spot tree) ≡ meaning tree
run-spell_example = run-spell no_float [] spot tree 3 (omega arith)

-- #ifdef with an #else around an #if
abbrev doc : Doc ℕ
doc =
    item 1 (ifdef_else false (item 2 done) (if_end true (item 3 done) (item 4 done)) (item 5 done))

run-lines_example : run [] (lines doc (text 9 ∷ [])) ≡ (1 ∷ 3 ∷ 4 ∷ 5 ∷ 9 ∷ [], [])
unfolding run
run-lines_example = run-lines doc [] (text 9 ∷ [])

-- two macros that name each other
abbrev mutual_macros : List (Bytes × List Token)
mutual_macros =
    (codes "A", word (codes "B") spot ∷ []) ∷ (codes "B", word (codes "A") spot ∷ []) ∷ []

free_two : free mutual_macros [] ≤ 2
unfolding contains
free_two = omega arith

expand_total_example :
    (out : List Token) × (expand host true mutual_macros
        (word (codes "A") spot)
        2
        []
        (word (codes "A") spot ∷ [])
      ≡ ok out)
expand_total_example =
    expand_total host true mutual_macros (word (codes "A") spot) 2 [] (word (codes "A") spot ∷ [])
      free_two

-- `#define A 1 A`
abbrev one : Token
one = record (blank spot) { kind = int_lit; ival = pos 1 }

abbrev looping : Lexer
looping = record (from_buffer [] [] true) {
  stack = [];
  macros = (codes "A", one ∷ word (codes "A") spot ∷ []) ∷ [];
}

next-waiting_example :
    next 1 host (waiting looping (word (codes "A") spot))
    ≡ ok (record one { loc = spot }, waiting looping (word (codes "A") spot))
unfolding builtin_macro lookup from_buffer
next-waiting_example = next-waiting host 0 looping (codes "A") spot spot one refl refl refl

-- `#define A A` and `#if A`
A-IsSelfNamed : IsSelfNamed ((codes "A", word (codes "A") spot ∷ []) ∷ []) (word (codes "A") spot)
unfolding lookup bytes_eq
A-IsSelfNamed = record {
  kind = refl;
  plain = refl;
  first = word (codes "A") spot;
  others = [];
  body = refl;
  first_kind = refl;
  first_text = refl;
}

expr_self_example :
    expr no_float
      ((codes "A", word (codes "A") spot ∷ []) ∷ [])
      1000
      (word (codes "A") spot ∷ [])
      false
    ≡ out_of_fuel
expr_self_example =
    expr_self no_float ((codes "A", word (codes "A") spot ∷ []) ∷ []) 1000 (word (codes "A") spot)
      [] false A-IsSelfNamed

-- A is defined, defined again and B is removed
abbrev edits : List Change
edits =
    defining (word (codes "A") spot) []
    ∷ defining (word (codes "A") spot) (word (codes "C") spot ∷ [])
    ∷ removing (word (codes "B") spot)
    ∷ []

lookup-changes_example :
    lookup (codes "A") (changes spot edits looping).macros
    ≡ body_behind edits (codes "A") (lookup (codes "A") looping.macros)
lookup-changes_example = lookup-changes spot edits (codes "A") looping (refl, (refl, (refl, tt)))

abbrev main_file : Lexer
main_file = from_buffer [] (codes "m.HC") true

abbrev file_host : Host
file_host = record host { open_file = λ path. some (codes "1") }

open_include-Searched_example :
    Searched file_host
      (include_paths (codes "x.HH") main_file)
      main_file
      (open_include file_host (codes "x.HH") main_file)
open_include-Searched_example = open_include-Searched file_host (codes "x.HH") main_file
