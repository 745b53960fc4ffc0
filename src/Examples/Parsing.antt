-- ===== src/Examples/Parsing.antt =====
-- The parser on a few tokens, and its theorems at concrete inputs.
use hlang.Base.{
  ℕ, ◌≡◌, refl, true, List, [], ◌∷◌, Bytes, Option, none, some, bytes_eq, codes, arith, length, not,
  all_of,
}
use hlang.Base.Int.{pos}
use hlang.Run.{Run, ok, undefined, out_of_fuel}
use hlang.Token.{
  Token, SrcLoc, blank, Punct, Tok, eof, ◌=tok◌, semi, l_brace, r_brace, l_paren, r_paren,
  l_bracket, r_bracket, assign, star, plus,
}
use hlang.Ast
use hlang.Ast.{Expr}
use hlang.Base.Int.{fits64}
use hlang.Token.{slash, pow}
use hlang.Parser.Constant.{eval_const}
use hlang.Parser.Constant.Exact.{Explains, basic}
use hlang.Parser.Constant.Exact.Folding.{eval_const-Explains}
use hlang.Ast.Members.{IsRanked}
use hlang.Ast.Program.{TopItem}
use hlang.Parser.{Parser}
use hlang.Parser.Expression.{parse_assign}
use hlang.Parser.Program.{program}
use hlang.Parser.Termination.{Results, parse_assign_total}
use hlang.Token.{is, minus}
use hlang.Parser.Precedence.{Tree, number, join, add, sub, times, write, built, nesting, quiet}
use hlang.Parser.Precedence.Climbing.{front}
use hlang.Ast.{class, sizeof_type}
use hlang.Parser.{builtin_type, find_class}
use hlang.Parser.Expression.{parse_sizeof}
use hlang.Parser.Expression.Quoted.{keyword, quoted, opening, closing, parse_sizeof-quoted}
use hlang.Parser.Precedence.RoundTrip.{closed, parse_assign-write}

abbrev spot : SrcLoc
spot = record { file = codes "t.HC"; line = 1; col = 1 }

abbrev word : Bytes → Token
word n = record (blank spot) { kind = Tok.ident; text = n }

abbrev sign : Punct → Token
sign q = record (blank spot) { kind = Tok.punct; punct = q }

abbrev digits : ℕ → Token
digits n = record (blank spot) { kind = Tok.int_lit; ival = pos n }

abbrev source : List Token → Parser
source ts = record { toks = ts; log = []; classes = []; store = [] }

-- class A { I64 x; U8 y[3]; } a; A *F(I64 n=2) { if (n) return n + 1; }
abbrev small : Parser
small = source (
    word (codes "class")
    ∷ word (codes "A")
    ∷ sign l_brace
    ∷ word (codes "I64")
    ∷ word (codes "x")
    ∷ sign semi
    ∷ word (codes "U8")
    ∷ word (codes "y")
    ∷ sign l_bracket
    ∷ digits 3
    ∷ sign r_bracket
    ∷ sign semi
    ∷ sign r_brace
    ∷ word (codes "a")
    ∷ sign semi
    ∷ word (codes "A")
    ∷ sign star
    ∷ word (codes "F")
    ∷ sign l_paren
    ∷ word (codes "I64")
    ∷ word (codes "n")
    ∷ sign assign
    ∷ digits 2
    ∷ sign r_paren
    ∷ sign l_brace
    ∷ word (codes "if")
    ∷ sign l_paren
    ∷ word (codes "n")
    ∷ sign r_paren
    ∷ word (codes "return")
    ∷ word (codes "n")
    ∷ sign plus
    ∷ digits 1
    ∷ sign semi
    ∷ sign r_brace
    ∷ [])

-- the errors that were reported and the items
abbrev outcome : Run (List TopItem × Parser) → Option (ℕ × ℕ)
outcome (ok (items, p)) = some (length p.log, length items)
outcome undefined = none
outcome out_of_fuel = none

program-small : outcome (program (λ t. none) 50 small) ≡ some (0, 3)
unfolding program
program-small = refl

-- no classes, and so no chain of bases
abbrev flat : ℕ → ℕ
flat k = 0

IsRanked-flat : IsRanked flat []
IsRanked-flat k b ci e h = absurd (ground (arith, e))

-- n + 1
abbrev sum : Parser
sum = source (word (codes "n") ∷ sign plus ∷ digits 1 ∷ [])

all-sum : all_of (λ (t : Token). not (t.kind =tok eof)) sum.toks ≡ true
all-sum = refl

parse_assign_total_example : Results 0 sum (parse_assign 5 sum)
parse_assign_total_example =
    parse_assign_total flat 1 sum IsRanked-flat (λ k. omega arith) all-sum 5 (omega arith)

-- if (n) return n + 1;
abbrev branch : Parser
branch = source (
    word (codes "if")
    ∷ sign l_paren
    ∷ word (codes "n")
    ∷ sign r_paren
    ∷ word (codes "return")
    ∷ word (codes "n")
    ∷ sign plus
    ∷ digits 1
    ∷ sign semi
    ∷ [])

-- U0 F(I64 n) { n; }
abbrev routine : Parser
routine = source (
    word (codes "U0")
    ∷ word (codes "F")
    ∷ sign l_paren
    ∷ word (codes "I64")
    ∷ word (codes "n")
    ∷ sign r_paren
    ∷ sign l_brace
    ∷ word (codes "n")
    ∷ sign semi
    ∷ sign r_brace
    ∷ [])

-- 2 ` 5 / -7
abbrev quotient : Expr
quotient =
    Ast.binary spot slash
      (Ast.binary spot pow (Ast.int_lit spot (pos 2)) (Ast.int_lit spot (pos 5)))
      (Ast.unary spot minus true (Ast.int_lit spot (pos 7)))

basic-quotient : basic quotient ≡ true
unfolding fits64
basic-quotient = refl

eval_const-Explains_example : Explains quotient (eval_const (λ t. none) [] quotient)
eval_const-Explains_example = eval_const-Explains (λ t. none) [] quotient basic-quotient

-- (1 + 2) * 3 - 4 - 5;
abbrev difference : Tree
difference =
    join sub (join sub (join times (join add (number 1) (number 2)) (number 3)) (number 4))
      (number 5)

write-difference :
    write spot 11 difference (sign semi ∷ [])
    ≡ sign l_paren
      ∷ digits 1
      ∷ sign plus
      ∷ digits 2
      ∷ sign r_paren
      ∷ sign star
      ∷ digits 3
      ∷ sign minus
      ∷ digits 4
      ∷ sign minus
      ∷ digits 5
      ∷ sign semi
      ∷ []
unfolding write
write-difference = refl

closed-semi : closed (sign semi ∷ []) ≡ true
unfolding is quiet
closed-semi = refl

nesting-difference : nesting 11 difference ≡ 1
unfolding nesting
nesting-difference = refl

parse_assign-write_example :
    parse_assign 2 (front (source []) (write spot 11 difference (sign semi ∷ [])))
    ≡ ok (built spot difference, front (source []) (sign semi ∷ []))
parse_assign-write_example =
    parse_assign-write spot (source []) 2 difference (sign semi ∷ [])
      (omega (arith, nesting-difference)) closed-semi

-- a class Foo, the first
abbrev with_class : Parser
with_class = record (source []) { classes = (codes "Foo", 0) ∷ [] }

builtin_type-Foo : builtin_type (codes "Foo") ≡ none
unfolding builtin_type
builtin_type-Foo = refl

find_class-Foo : find_class (codes "Foo") with_class ≡ some 0
unfolding find_class bytes_eq
find_class-Foo = refl

parse_sizeof-quoted_example :
    parse_sizeof 1 (parse_assign 1) (record with_class {
      toks = keyword spot ∷ opening spot ∷ quoted spot (codes "Foo") ∷ closing spot ∷ [];
    })
    ≡ ok (sizeof_type spot (class 0), record with_class { toks = [] })
parse_sizeof-quoted_example =
    parse_sizeof-quoted spot 1 (parse_assign 1) with_class (codes "Foo") 0 [] builtin_type-Foo
      find_class-Foo
