-- ===== src/Parser/Skip.antt =====
-- src/parser.cpp: the loops that pass over tokens behind an error.
pub mod Budget
use hlang.Base.{ℕ, zero, suc, ◌+◌, ◌-◌, Bool, true, false, ◌&&◌, List, [], ◌∷◌, ◌==◌, if◌then◌else◌}
use hlang.Base.Int.{ℤ, pos, negsuc}
use hlang.Run.{ok}
use hlang.Token.{Token, Punct, is, semi, l_brace, r_brace, l_paren, r_paren}
use hlang.Parser.{Parser, M, ◌>>=◌, get, at}

-- `depth++` and `depth--` on an `int`
abbrev pub up : ℤ → ℤ
up (pos n) = pos (suc n)
up (negsuc zero) = pos 0
up (negsuc (suc n)) = negsuc n

abbrev pub down : ℤ → ℤ
down (pos zero) = negsuc 0
down (pos (suc n)) = pos n
down (negsuc n) = negsuc (suc n)

-- `depth <= 0`
abbrev pub outermost : ℤ → Bool
outermost (pos zero) = true
outermost (pos (suc n)) = false
outermost (negsuc n) = true

-- `skipToSemi`: what is left behind the semicolon, with the brace depth so far
unfoldable pub behind_semi : ℤ → List Token → List Token
unfolding is
behind_semi depth [] = []
behind_semi depth (t ∷ ts) =
    let inside = if is l_brace t then up depth else if is r_brace t then down depth else depth in
    let more = behind_semi inside ts in if is semi t && outermost inside then ts else more

unfoldable pub skip_to_semi : M (Unit {0})
unfolding behind_semi
skip_to_semi p = ok (tt, record p { toks = behind_semi (pos 0) p.toks })

-- the loop of `skipBraceBlock`, which ends where a closing brace brings the depth to 0
unfoldable pub behind_braces : ℤ → List Token → List Token
unfolding is
behind_braces depth [] = []
behind_braces depth (t ∷ ts) =
    let deeper = behind_braces (up depth) ts in
    let closed : List Token = elim (down depth) [
      | pos n ↦ if n == 0 then ts else behind_braces (pos n) ts
      | negsuc n ↦ behind_braces (negsuc n) ts
    ] in
    let same = behind_braces depth ts in
    if is l_brace t then deeper else if is r_brace t then closed else same

-- `skipBraceBlock` at a brace
unfoldable pub skip_braces : M (Unit {0})
unfolding behind_braces
skip_braces p = ok (tt, record p { toks = behind_braces (pos 0) p.toks })

unfoldable pub skip_brace_block : M (Unit {0})
unfolding skip_to_semi skip_braces at ◌>>=◌
skip_brace_block = do braced ← get (at l_brace 0); if braced then skip_braces else skip_to_semi

-- `skipToParenEnd`, with a parenthesis open
unfoldable pub behind_parens : ℕ → List Token → List Token
unfolding is
behind_parens depth [] = []
behind_parens depth (t ∷ ts) =
    let deeper = behind_parens (depth + 1) ts in
    let shallower = behind_parens (depth - 1) ts in
    let same = behind_parens depth ts in
    if is l_paren t
    then deeper
    else if is r_paren t
    then (if depth == 1 then ts else shallower)
    else same

unfoldable pub skip_to_paren_end : M (Unit {0})
unfolding behind_parens
skip_to_paren_end p = ok (tt, record p { toks = behind_parens 1 p.toks })
