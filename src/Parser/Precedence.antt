-- ===== src/Parser/Precedence.antt =====
-- Expressions over the binary operators of src/parser.cpp, written with the parentheses that
-- precedence and associativity need, and no others.
pub mod Climbing
pub mod Table
pub mod Reading
pub mod RoundTrip
use hlang.Base.{
  ℕ, zero, suc, ◌+◌, ◌-◌, Bool, true, false, not, ◌&&◌, ◌||◌, List, [], ◌∷◌, none, some, get_elem?,
  leb, max, if◌then◌else◌,
}
use hlang.Base.Int.{pos}
use hlang.Token.{
  Token, Tok, SrcLoc, Punct, blank, is, or_or, xor_xor, and_and, eq_eq, ne, plus, minus, pipe,
  caret, amp, star, slash, percent, pow, shl, shr, l_paren, r_paren, l_bracket, dot, arrow,
  plus_plus, minus_minus,
}
use hlang.Ast.{Expr, int_lit, binary}
use hlang.Parser.Levels.{one_of, relations}

-- the binary operators that do not chain
pub data Op : Type 0 where
  power up_by down_by times over rest_of band bxor bor add sub same other both_of one_only either :
      Op

abbrev pub punct_of : Op → Punct
punct_of power = pow
punct_of up_by = shl
punct_of down_by = shr
punct_of times = star
punct_of over = slash
punct_of rest_of = percent
punct_of band = amp
punct_of bxor = caret
punct_of bor = pipe
punct_of add = plus
punct_of sub = minus
punct_of same = eq_eq
punct_of other = ne
punct_of both_of = and_and
punct_of one_only = xor_xor
punct_of either = or_or

-- The level below that of an operator: 0 for the tightest. The comparisons stand at level 7.
abbrev pub below : Op → ℕ
below power = 0
below up_by = 0
below down_by = 0
below times = 1
below over = 1
below rest_of = 1
below band = 2
below bxor = 3
below bor = 4
below add = 5
below sub = 5
below same = 7
below other = 7
below both_of = 8
below one_only = 9
below either = 10

abbrev pub level : Op → ℕ
level o = suc (below o)

-- the operators of each level, from the first
abbrev tiers : List (List Punct)
tiers =
    (pow ∷ shl ∷ shr ∷ [])
    ∷ (star ∷ slash ∷ percent ∷ [])
    ∷ (amp ∷ [])
    ∷ (caret ∷ [])
    ∷ (pipe ∷ [])
    ∷ (plus ∷ minus ∷ [])
    ∷ relations
    ∷ (eq_eq ∷ ne ∷ [])
    ∷ (and_and ∷ [])
    ∷ (xor_xor ∷ [])
    ∷ (or_or ∷ [])
    ∷ []

-- the operators of the level above `k`
abbrev pub ops : ℕ → List Punct
ops k = elim (get_elem? tiers k) [ none ↦ [] | some qs ↦ qs ]

pub data Tree : Type 0 where
  number : ℕ → Tree
  join : Op → Tree → Tree → Tree

module _ (l : SrcLoc) where
  abbrev pub sign : Punct → Token
  sign q = record (blank l) { kind = Tok.punct; punct = q }

  abbrev pub literal : ℕ → Token
  literal v = record (blank l) { kind = Tok.int_lit; ival = pos v }

  -- A tree in front of some tokens, where operators up to a level need no parentheses. The left
  -- operand may be of the same level, the right one is of a tighter one.
  unfoldable pub write : ℕ → Tree → List Token → List Token
  write k (number v) ts = literal v ∷ ts
  write k (join o a b) ts =
      let bare =
        λ (us : List Token). write (level o) a (sign (punct_of o) ∷ write (below o) b us) in
      if leb (level o) k then bare ts else sign l_paren ∷ bare (sign r_paren ∷ ts)

  -- the tree that the parser builds
  unfoldable pub built : Tree → Expr
  built (number v) = int_lit l (pos v)
  built (join o a b) = binary l (punct_of o) (built a) (built b)

-- how deep the parentheses are
unfoldable pub nesting : ℕ → Tree → ℕ
nesting k (number v) = 0
nesting k (join o a b) =
    let inner = max (nesting (level o) a) (nesting (below o) b) in
    if leb (level o) k then inner else suc inner

-- A token goes on with no operand: it is no operator up to a level, nor does it begin a suffix.
unfoldable pub quiet : ℕ → Token → Bool
unfolding is
quiet zero t = not (
    is l_paren t
    || (is l_bracket t || (is dot t || is arrow t) || (is plus_plus t || is minus_minus t)))
quiet (suc k) t = not (one_of (ops k) t) && quiet k t

unfoldable pub quiet_at : ℕ → List Token → Bool
unfolding quiet
quiet_at k [] = true
quiet_at k (t ∷ ts) = quiet k t
