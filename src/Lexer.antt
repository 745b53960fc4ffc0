-- ===== src/Lexer.antt =====
-- src/lexer.hpp and src/lexer.cpp: the lexer's state, what it takes from the host, and the
-- operations on the stack of sources.
pub mod Conds
pub mod Search
pub mod CondOps
pub mod CondEval
pub mod Expand
pub mod Regions
pub mod Blocks
pub mod Directives
pub mod Raw
mod Tests
use hlang.Base.{
  ℕ, ◌+◌, Bool, true, false, ◌&&◌, ◌||◌, List, [], ◌∷◌, ◌++◌, ◌==◌, if◌then◌else◌, Bytes, Option,
  none, some, bytes_eq, codes, map,
}
use hlang.Base.Dict.{Dict}
use hlang.Base.Int.{ℤ, pos}
use hlang.Token.{Token, SrcLoc, ident, int_lit, str_lit}
use hlang.Scan.{Pos, Input}
use hlang.Scan.Lexeme.{Complaint}

-- `struct Source`: the bytes not read yet, with the file's name and directory
pub record Source : Type 0 where
  pub rest : Bytes
  pub pos : Pos
  pub file : Bytes
  pub dir : Bytes

-- `struct Cond`: one open #if
pub record Cond : Type 0 where
  pub active : Bool
  pub taken : Bool
  pub else_seen : Bool

-- what the lexer prints to stderr
pub data Message : Type 0 where
  lexing : Complaint → Message
  unterminated_comment unterminated_if : Message
  expects_identifier else_without_if duplicate_else endif_without_if : Message
  define_identifier define_function undef_identifier : Message
  cannot_open include_filename assert_failed unknown_directive : Message
  exe_brace exe_unterminated exe_unavailable : Message
  empty_expression bad_expression : Message

-- `class Lexer`. The stacks have their tops first.
pub record Lexer : Type 0 where
  pub stack : List Source
  pub pending : List Token
  pub macros : Dict (List Token)
  pub expanding : List Bytes
  pub include_dirs : List Bytes
  pub jit_mode : Bool
  pub had_error : Bool
  pub log : List (SrcLoc × Message)
  pub conds : List Cond

-- What the lexer asks of its surroundings: files, the clock, the #exe hook, and the value of a
-- floating literal as an `int64_t` (none where the conversion is undefined).
pub record Host : Type 0 where
  pub open_file : Bytes → Option Bytes
  pub date : Bytes
  pub time : Bytes
  pub exe_hook : Option (Bytes → SrcLoc → Bytes)
  pub float_int : Bytes → Option ℤ

abbrev pub start_pos : Pos
start_pos = record { line = 1; col = 1 }

-- the text before the last `/`, if there is one
unfoldable pub before_slash : Bytes → Option Bytes
before_slash [] = none
before_slash (c ∷ cs) = elim (before_slash cs) [
  | some d ↦ some (c ∷ d)
  | none ↦ if c == b'/' then some [] else none
]

-- `dirOf`
unfoldable pub dir_of : Bytes → Bytes
unfolding before_slash
dir_of path = elim (before_slash path) [ none ↦ codes "." | some d ↦ d ]

-- `atEof`
unfoldable pub at_eof : Lexer → Bool
at_eof lx = elim lx.stack [ [] ↦ true | s ∷ r ↦ false ]

-- the unread bytes of `src()`, none at the end of all input
unfoldable pub input : Lexer → Input
input lx = elim lx.stack [ [] ↦ ([], start_pos) | s ∷ r ↦ (s.rest, s.pos) ]

-- `src()` after some bytes were taken
unfoldable pub set_input : Input → Lexer → Lexer
set_input (cs, p) lx = elim lx.stack [
  | [] ↦ lx
  | s ∷ r ↦ record lx { stack = record s { rest = cs; pos = p } ∷ r }
]

-- `here()`
unfoldable pub here : Lexer → SrcLoc
here lx = elim lx.stack [
  | [] ↦ record { file = codes "<eof>"; line = 0; col = 0 }
  | s ∷ r ↦ let p = s.pos in record { file = s.file; line = p.line; col = p.col }
]

-- `error(loc, msg)`
unfoldable pub error : SrcLoc → Message → Lexer → Lexer
error l m lx = record lx { had_error = true; log = (l, m) ∷ lx.log }

-- `error(loc, msg)` under a test
unfoldable pub error_if : Bool → SrcLoc → Message → Lexer → Lexer
unfolding error
error_if b l m lx = if b then error l m lx else lx

unfoldable pub errors : SrcLoc → List Message → Lexer → Lexer
unfolding error
errors l [] lx = lx
errors l (m ∷ ms) lx = errors l ms (error l m lx)

-- `stack_.push_back(...)` of a file or an injected text
unfoldable pub push_source : Bytes → Bytes → Bytes → Lexer → Lexer
push_source text file dir lx = record lx {
  stack = record { rest = text; pos = start_pos; file = file; dir = dir } ∷ lx.stack;
}

-- the first of the paths that can be opened
unfoldable pub try_paths : Host → List Bytes → Lexer → Option Lexer
unfolding push_source dir_of
try_paths h [] lx = none
try_paths h (path ∷ paths) lx = elim (h.open_file path) [
  | some text ↦ some (push_source text path (dir_of path) lx)
  | none ↦ try_paths h paths lx
]

abbrev is_absolute : Bytes → Bool
is_absolute [] = false
is_absolute (c ∷ cs) = c == b'/'

abbrev own_dir : Lexer → List Bytes
own_dir lx = elim lx.stack [ [] ↦ [] | s ∷ r ↦ s.dir ∷ [] ]

-- The paths that `openInclude` tries, in their order.
unfoldable pub include_paths : Bytes → Lexer → List Bytes
include_paths name lx =
    if is_absolute name
    then name ∷ []
    else map (λ d. d ++ (b'/' ∷ name)) (own_dir lx ++ lx.include_dirs)

-- `openInclude`: none where no path can be opened
unfoldable pub open_include : Host → Bytes → Lexer → Option Lexer
unfolding include_paths try_paths
open_include h name lx = try_paths h (include_paths name lx) lx

-- the constructor for a buffer in memory
unfoldable pub from_buffer : Bytes → Bytes → Bool → Lexer
unfolding push_source
from_buffer text name jit = push_source text name (codes ".") (record {
  stack = [];
  pending = [];
  macros = [];
  expanding = [];
  include_dirs = [];
  jit_mode = jit;
  had_error = false;
  log = [];
  conds = [];
})

-- The constructor for a file, which `had_error` says could not be opened.
unfoldable pub from_file : Host → Bytes → Bool → List Bytes → Lexer
unfolding from_buffer push_source dir_of
from_file h path jit dirs =
    let empty = record (from_buffer [] [] jit) { stack = []; include_dirs = dirs } in
    elim (h.open_file path) [
      | none ↦ record empty { had_error = true }
      | some text ↦ push_source text path (dir_of path) empty
    ]
