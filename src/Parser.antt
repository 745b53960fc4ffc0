-- ===== src/Parser.antt =====
-- src/parser.cpp: the parser's state, its token buffer, and the names of types. The tokens still to
-- come are a list; behind it `Lexer::next` gives the end of file for ever.
pub mod Constant
pub mod Casts
pub mod Sound
pub mod Budget
pub mod Levels
pub mod Expression
pub mod Skip
pub mod Declarator
pub mod Keyword
pub mod Leaf
pub mod Control
pub mod Statement
pub mod TopLevel
pub mod ClassDef
pub mod Program
pub mod Termination
pub mod Precedence
use hlang.Base.{
  ℕ, zero, suc, ◌+◌, Bool, true, false, not, ◌&&◌, ◌||◌, List, [], ◌∷◌, if◌then◌else◌, Bytes,
  Option, none, some, bytes_eq, codes, get_elem?, drop, length,
}
use hlang.Base.Dict.{Dict, lookup}
use hlang.Run
use hlang.Run.{Run, ok, out_of_fuel}
use hlang.Token.{
  Tok, Token, SrcLoc, Punct, blank, eof, ◌=tok◌, is, is_ident, star, l_paren, r_paren, ident,
}
use hlang.Ast.{Ty, void, int, f64, ptr, class, i64, Store}

-- what the parser reports
pub data Message : Type 0 where
  expected : Punct → Message
  unknown_type no_question_colon member_name expected_expression : Message
  dollar_unsupported sizeof_member_name no_such_member offset_class offset_member : Message
  function_pointer_name array_dimension parameter_type variable_name nested_function : Message
  no_continue no_typedef label_after_goto no_asm local_class unterminated_block : Message
  while_after_do brace_after_try catch_after_try brace_after_catch : Message
  alias_symbol class_name base_class_name one_base_class unterminated_class : Message
  dollar_in_class member_type expected_member duplicate_member : Message
  class_declarator expected_declarator expected_declaration : Message

-- `struct Parser::Impl`, with the classes by name and the class infos
pub record Parser : Type 0 where
  pub toks : List Token
  pub log : List (SrcLoc × Message)
  pub classes : Dict ℕ
  pub store : Store

-- the token that follows the last one
abbrev end_token : Token
end_token = blank (record { file = codes "<eof>"; line = 0; col = 0 })

-- `tok(k)`
unfoldable pub tok : ℕ → Parser → Token
tok k p = elim (get_elem? p.toks k) [ none ↦ end_token | some t ↦ t ]

-- `is(p, k)`
unfoldable pub at : Punct → ℕ → Parser → Bool
unfolding tok is
at q k p = is q (tok k p)

-- A member of `Parser::Impl`: `had_error` is that `log` is not empty.
abbrev pub M {ℓ} : Type ℓ → Type ℓ
M A = Parser → Run (A × Parser)

unfoldable pub give {ℓ} : {A : Type ℓ} → A → M A
give a p = ok (a, p)

-- the end of the fuel
unfoldable pub no_fuel {ℓ} : {A : Type ℓ} → M A
no_fuel p = out_of_fuel

unfoldable pub get {ℓ} : {A : Type ℓ} → (Parser → A) → M A
get f p = ok (f p, p)

-- opening this opens `give`, `get` and `no_fuel` too
infixl 5 ◌>>=◌ ◌>>◌
unfoldable pub ◌>>=◌ {ℓ} : {A : Type ℓ} {B : Type ℓ} → M A → (A → M B) → M B
unfolding give get no_fuel
◌>>=◌ m f p = Run.◌>>=◌ (m p) λ (a, q). f a q

abbrev pub ◌>>◌ {ℓ} : {B : Type ℓ} → M (Unit {ℓ}) → M B → M B
m >> k = m >>= λ u. k

-- a test for null
abbrev pub on_option {ℓ} : {A : Type ℓ} {B : Type ℓ} → Option A → B → (A → B) → B
on_option none n f = n
on_option (some a) n f = f a

-- `take`
unfoldable pub take : M Token
unfolding tok
take p = ok (tok 0 p, record p { toks = drop 1 p.toks })

-- `accept`
unfoldable pub accept : Punct → M Bool
unfolding at
accept q p = if at q 0 p then ok (true, record p { toks = drop 1 p.toks }) else ok (false, p)

-- `error`
unfoldable pub error : SrcLoc → Message → M (Unit {0})
error l m p = ok (tt, record p { log = (l, m) ∷ p.log })

-- `error(tok().loc, msg)`
unfoldable pub error_here : Message → M (Unit {0})
unfolding error tok
error_here m p = let t = tok 0 p in error t.loc m p

-- `expect`: on a miss one token is skipped, if there is one
unfoldable pub expect : Punct → M (Unit {0})
unfolding at tok error_here
expect q p =
    let t = tok 0 p in
    let missed = record p {
      log = (t.loc, expected q) ∷ p.log;
      toks = if t.kind =tok eof then p.toks else drop 1 p.toks;
    } in
    if at q 0 p then ok (tt, record p { toks = drop 1 p.toks }) else ok (tt, missed)

-- `isIdent`
unfoldable pub at_word : Bytes → ℕ → Parser → Bool
unfolding tok is_ident
at_word s k p = is_ident s (tok k p)

-- `tok(k).kind == Tok::Ident`
unfoldable pub at_ident : ℕ → Parser → Bool
unfolding tok
at_ident k p = let t = tok k p in t.kind =tok ident

-- `tok().kind == Tok::Eof`
unfoldable pub at_eof : Parser → Bool
unfolding tok
at_eof p = let t = tok 0 p in t.kind =tok eof

-- `builtinTypes`
unfoldable pub builtin_type : Bytes → Option Ty
unfolding bytes_eq
builtin_type n =
    if bytes_eq n (codes "U0") || bytes_eq n (codes "I0")
    then some void
    else if bytes_eq n (codes "I8") || bytes_eq n (codes "I8i")
    then some (int 1 false)
    else if bytes_eq n (codes "U8") || bytes_eq n (codes "U8i")
    then some (int 1 true)
    else if bytes_eq n (codes "I16") || bytes_eq n (codes "I16i")
    then some (int 2 false)
    else if bytes_eq n (codes "U16") || bytes_eq n (codes "U16i")
    then some (int 2 true)
    else if bytes_eq n (codes "I32") || bytes_eq n (codes "I32i")
    then some (int 4 false)
    else if bytes_eq n (codes "U32") || bytes_eq n (codes "U32i")
    then some (int 4 true)
    else if bytes_eq n (codes "I64") || bytes_eq n (codes "I64i")
    then some (int 8 false)
    else if bytes_eq n (codes "U64") || bytes_eq n (codes "U64i")
    then some (int 8 true)
    else if bytes_eq n (codes "F64")
    then some f64
    else none

-- `prog->classes.find(name)`
unfoldable pub find_class : Bytes → Parser → Option ℕ
unfolding lookup
find_class n p = lookup n p.classes

-- `baseTypeFor`
unfoldable pub base_type_for : Bytes → Parser → Option Ty
unfolding builtin_type find_class
base_type_for n p = elim (builtin_type n) [
  | some t ↦ some t
  | none ↦ elim (find_class n p) [ none ↦ none | some k ↦ some (class k) ]
]

-- `isTypeName`
unfoldable pub is_type_name : Token → Parser → Bool
unfolding base_type_for
is_type_name t p =
    if t.kind =tok ident
    then elim (base_type_for t.text p) [ none ↦ false | some ty ↦ true ]
    else false

-- `while (is(P::Star)) { take(); ty = tyPtr(ty); }`, over the tokens at hand
unfoldable pub stars : Ty → List Token → Ty × List Token
unfolding is
stars ty [] = (ty, [])
stars ty (t ∷ ts) = let more = stars (ptr ty) ts in if is star t then more else (ty, t ∷ ts)

unfoldable pub take_stars : Ty → M Ty
unfolding stars
take_stars ty p = let r = stars ty p.toks in ok (r.0, record p { toks = r.1 })

-- `parseBaseTypeNoStars`
unfoldable pub parse_base_type_no_stars : M Ty
unfolding take base_type_for error ◌>>=◌
parse_base_type_no_stars = do
  t ← take
  found ← get (base_type_for t.text)
  on_option found (do error t.loc unknown_type; give i64) give

-- `parseBaseType`
unfoldable pub parse_base_type : M Ty
unfolding parse_base_type_no_stars take_stars ◌>>=◌
parse_base_type = do ty ← parse_base_type_no_stars; take_stars ty

-- the tokens behind some stars
unfoldable pub behind_stars : List Token → List Token
unfolding is
behind_stars [] = []
behind_stars (t ∷ ts) = if is star t then behind_stars ts else t ∷ ts

-- `looksLikeCast`
unfoldable pub looks_like_cast : Parser → Bool
unfolding at tok is_type_name behind_stars
looks_like_cast p =
    at l_paren 0 p
    && is_type_name (tok 1 p) p
    && at r_paren 0 (record p { toks = behind_stars (drop 2 p.toks) })
