-- ===== src/Parser/Keyword.antt =====
-- src/parser.cpp: the words that `parseStmt` compares an identifier with, in its order.
use hlang.Base.{◌||◌, Bytes, codes, bytes_eq, if◌then◌else◌}

-- the words that begin a statement of their own
pub data Keyword : Type 0 where
  if_word while_word do_word for_word switch_word break_word continue_word : Keyword
  typedef_word goto_word return_word case_word default_word start_word : Keyword
  end_word try_word no_warn_word lock_word asm_word class_word static_word : Keyword
  no_keyword : Keyword

unfoldable pub keyword_of : Bytes → Keyword
unfolding bytes_eq
keyword_of w =
    if bytes_eq w (codes "if")
    then if_word
    else if bytes_eq w (codes "while")
    then while_word
    else if bytes_eq w (codes "do")
    then do_word
    else if bytes_eq w (codes "for")
    then for_word
    else if bytes_eq w (codes "switch")
    then switch_word
    else if bytes_eq w (codes "break")
    then break_word
    else if bytes_eq w (codes "continue")
    then continue_word
    else if bytes_eq w (codes "typedef")
    then typedef_word
    else if bytes_eq w (codes "goto")
    then goto_word
    else if bytes_eq w (codes "return")
    then return_word
    else if bytes_eq w (codes "case")
    then case_word
    else if bytes_eq w (codes "default")
    then default_word
    else if bytes_eq w (codes "start")
    then start_word
    else if bytes_eq w (codes "end")
    then end_word
    else if bytes_eq w (codes "try")
    then try_word
    else if bytes_eq w (codes "no_warn")
    then no_warn_word
    else if bytes_eq w (codes "lock")
    then lock_word
    else if bytes_eq w (codes "asm")
    then asm_word
    else if bytes_eq w (codes "class") || bytes_eq w (codes "union")
    then class_word
    else if bytes_eq w (codes "static")
    then static_word
    else no_keyword
