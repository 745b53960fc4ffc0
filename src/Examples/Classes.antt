-- ===== src/Examples/Classes.antt =====
-- The theorems on classes, constants and types at concrete inputs.
use hlang.Base.{
  ℕ, zero, suc, ◌≡◌, ◌↔◌, refl, true, false, List, [], ◌∷◌, ◌++◌, Bytes, Option, none, some, codes,
  arith, ◌∙◌,
}
use hlang.Base.Int.{pos, shl64, shr64}
use hlang.Run.{ok, out_of_fuel}
use hlang.Token.{Token, blank, punct, star, l_paren, r_paren, is}
use hlang.Lexer.CondEval
use hlang.Lexer.CondEval.Meaning.{run-spell}
use hlang.Lexer.CondEval.Parenthesised.{Tree, lit, join, left, right, sub, times, meaning, spell}
use hlang.Lexer.Raw.Reexpansion.{word}
use hlang.Ast.{Ty, int, ptr, class, ClassInfo, Store, Member, find_member, own_member, size}
use hlang.Ast.Layout.{complete_class, base_size}
use hlang.Ast.Layout.Packing.{IsPacked, complete_class-IsPacked}
use hlang.Ast.Layout.Overlay.{IsOverlaid, complete_class-IsOverlaid}
use hlang.Ast.Members.{IsRanked, find_member_total, find_member-own_base}
use hlang.Parser.{Parser, looks_like_cast, parse_base_type}
use hlang.Parser.Casts.{parse_base_type-looks_like_cast}
use hlang.Parser.Constant.{eval_const}
use hlang.Parser.Constant.Agreement.{embed, eval_const-run}
use hlang.Parser.Constant.Agreement.Shifts.{run-eval_const}
use hlang.Examples.{spot, no_float}

-- a class with a byte and a pointer, before and behind its definition
abbrev declared : ClassInfo
declared = record {
  name = codes "C";
  is_union = false;
  base = none;
  whole_type = none;
  members = [];
  size = pos 0;
  complete = false;
}

abbrev fields : List (Bytes × Ty)
fields = (codes "b", int 1 true) ∷ (codes "p", ptr (int 8 false)) ∷ []

abbrev laid_out : List Member
laid_out =
    record { name = codes "b"; type = int 1 true; offset = pos 0 }
    ∷ record { name = codes "p"; type = ptr (int 8 false); offset = pos 1 }
    ∷ []

abbrev completed : ClassInfo
completed = record declared { members = laid_out; size = pos 9; complete = true }

complete_class-completed : complete_class [] declared fields ≡ some (completed, [])
unfolding complete_class
complete_class-completed = refl

size-byte : size [] (int 1 true) ≡ some (pos 1)
unfolding size
size-byte = refl

size-pointer : size [] (ptr (int 8 false)) ≡ some (pos 8)
unfolding size
size-pointer = refl

complete_class-IsPacked_example :
    (r : List Member) × (end : ℕ) × (completed.members ≡ declared.members ++ r)
    × IsPacked [] 0 fields r end
    × (completed.size ≡ pos end)
    × (completed.complete ≡ true)
complete_class-IsPacked_example =
    complete_class-IsPacked [] declared completed fields 0 ((1, size-byte), ((8, size-pointer), tt))
      refl (unfold base_size in refl) complete_class-completed

-- 7 * 6 - 2
abbrev product : Tree
product = join sub (join times (lit (pos 7)) (lit (pos 6))) (lit (pos 2))

eval_const-run_example :
    (CondEval.run no_float [] 3 (spell spot product) ≡ ok (pos 40, false))
    ↔ (eval_const no_float [] (embed spot product) ≡ ok (pos 40, true))
eval_const-run_example = eval_const-run no_float [] spot [] product 3 (pos 40) refl (omega arith)

-- (1 << 5) >> 3
abbrev shifted : Tree
shifted = join right (join left (lit (pos 1)) (lit (pos 5))) (lit (pos 3))

meaning-shifted : meaning shifted ≡ ok (pos 4, false)
unfolding meaning shl64 shr64
meaning-shifted = refl

run-eval_const_example : eval_const no_float [] (embed spot shifted) ≡ ok (pos 4, true)
run-eval_const_example =
    run-eval_const no_float [] spot [] shifted 3 (pos 4) refl (omega arith)
      (run-spell no_float [] spot shifted 3 (omega arith) ∙ meaning-shifted)

-- a class, and a class based on it
abbrev based : Store
based =
    record declared { members = laid_out; complete = true }
    ∷ record declared { base = some (class 0) }
    ∷ []

rank : ℕ → ℕ
rank n = n

based-IsRanked : IsRanked rank based
unfolding rank
based-IsRanked zero b ci e h = absurd (ground (arith, e, h))
based-IsRanked (suc zero) b ci e h = ground (arith, e, h)
based-IsRanked (suc (suc k)) b ci e h = cc

find_member_total_example : (m : Option Member) × (find_member 2 based 1 (codes "p") ≡ ok m)
find_member_total_example =
    find_member_total rank based (codes "p") based-IsRanked 2 1 (unfold rank in omega arith)

-- `class A : A { };`
abbrev own_base : Store
own_base = record declared { base = some (class 0); complete = true } ∷ []

find_member-own_base_example : find_member 100 own_base 0 (codes "x") ≡ out_of_fuel
find_member-own_base_example =
    find_member-own_base 100 0 own_base (codes "x")
      (record declared { base = some (class 0); complete = true }) refl refl
      (unfold own_member in refl)

-- a union of a byte and a pointer
abbrev shared_by : ClassInfo
shared_by = record declared { is_union = true }

abbrev overlaid : List Member
overlaid =
    record { name = codes "b"; type = int 1 true; offset = pos 0 }
    ∷ record { name = codes "p"; type = ptr (int 8 false); offset = pos 0 }
    ∷ []

abbrev completed_union : ClassInfo
completed_union = record shared_by { members = overlaid; size = pos 8; complete = true }

complete_class-completed_union : complete_class [] shared_by fields ≡ some (completed_union, [])
unfolding complete_class
complete_class-completed_union = refl

complete_class-IsOverlaid_example :
    (r : List Member) × (end : ℕ) × (completed_union.members ≡ shared_by.members ++ r)
    × IsOverlaid [] 0 fields r end
    × (completed_union.size ≡ pos end)
    × (completed_union.complete ≡ true)
complete_class-IsOverlaid_example =
    complete_class-IsOverlaid [] shared_by completed_union fields 0
      ((1, size-byte), ((8, size-pointer), tt)) refl (unfold base_size in refl)
      complete_class-completed_union

-- `(I64 *)`
abbrev cast_tokens : List Token
cast_tokens =
    record (blank spot) { kind = punct; punct = star }
    ∷ record (blank spot) { kind = punct; punct = r_paren }
    ∷ []

abbrev fresh : Parser
fresh = record { toks = []; log = []; classes = []; store = [] }

abbrev opening : Token
opening = record (blank spot) { kind = punct; punct = l_paren }

fresh-looks_like_cast :
    looks_like_cast (record fresh { toks = opening ∷ word (codes "I64") spot ∷ cast_tokens }) ≡ true
unfolding looks_like_cast
fresh-looks_like_cast = refl

parse_base_type-looks_like_cast_example :
    (ty : Ty) × (r : Token) × (more : List Token) × (is r_paren r ≡ true)
    × (parse_base_type (record fresh { toks = word (codes "I64") spot ∷ cast_tokens })
        ≡ ok (ty, record fresh { toks = r ∷ more }))
parse_base_type-looks_like_cast_example =
    parse_base_type-looks_like_cast fresh opening (word (codes "I64") spot) cast_tokens
      fresh-looks_like_cast
