-- ===== src/Lexer/Blocks.antt =====
-- src/lexer.cpp: `skipToEndOfLine` on the lexer, and `handleExeBlock`.
use hlang.Base.{
  List, [], ◌∷◌, ◌++◌, ◌==◌, if◌then◌else◌, Bytes, none, some, codes, length, is_empty,
}
use hlang.Token.{SrcLoc}
use hlang.Scan.{Pos}
use hlang.Scan.Literal.{Fault}
use hlang.Scan.Lexeme.{literal}
use hlang.Lexer.{
  Lexer, Host, lexing, exe_brace, exe_unterminated, exe_unavailable, input, set_input, here, error,
  push_source,
}
use hlang.Lexer.Regions.{skip_to_end, exe_body, exe_open}

-- `skipToEndOfLine()` on the lexer
unfoldable pub drop_line : Lexer → Lexer
unfolding skip_to_end input set_input
drop_line lx = let s = input lx in set_input (skip_to_end s.0 s.1).1 lx

-- faults in literals, each at its own place
unfoldable pub report_faults : List (Pos × Fault) → Lexer → Lexer
unfolding error
report_faults [] lx = lx
report_faults ((p, e) ∷ fs) lx =
    let l = here lx in
    report_faults fs (error (record l { line = p.line; col = p.col }) (lexing (literal p e)) lx)

-- the text that the hook returns goes on top of the stack
unfoldable pub inject : Bytes → SrcLoc → Lexer → Lexer
unfolding push_source
inject text l lx =
    let dir : Bytes = elim lx.stack [ [] ↦ codes "." | s ∷ r ↦ s.dir ] in
    if is_empty text then lx else push_source text (l.file ++ codes ":<#exe>") dir lx

-- `handleExeBlock`
unfoldable pub on_exe : Host → Lexer → Lexer
unfolding exe_open exe_body input set_input here error report_faults inject
on_exe h lx =
    let l = here lx in
    let opened = exe_open (input lx) in
    let cs = opened.1.0 in
    let body = exe_body (length cs) 1 cs opened.1.1 in
    let read = report_faults body.faults (set_input body.rest lx) in
    let run : Lexer = elim h.exe_hook [
      | none ↦ error l exe_unavailable read
      | some hook ↦ inject (hook body.text l) l read
    ] in
    elim opened.0 [
      | none ↦ error l exe_brace (set_input opened.1 lx)
      | some c ↦
          if c == b'{'
          then (if body.closed then run else error l exe_unterminated read)
          else error l exe_brace (set_input opened.1 lx)
    ]
