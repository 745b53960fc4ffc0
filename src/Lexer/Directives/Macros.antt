-- ===== src/Lexer/Directives/Macros.antt =====
-- #define and #undef, as #ifdef and the macro expansion see them.
use hlang.Base.{◌≡◌, refl, List, [], ◌∷◌, if◌then◌else◌, Bytes, Option, none, some, arith, bytes_eq}
use hlang.Base.Dict.{lookup, lookup-insert, lookup-erase}
use hlang.Token.{Token, SrcLoc, ident}
use hlang.Lexer.{Lexer, error_if}
use hlang.Lexer.Directives.{on_define, on_undef}

-- A change to the macros by directives on names: a definition or its removal.
pub data Change : Type 0 where
  defining : Token → List Token → Change
  removing : Token → Change

abbrev pub name_of : Change → Token
name_of (defining t ts) = t
name_of (removing t) = t

-- the line behind #define or #undef, handled
unfoldable pub change : SrcLoc → Change → Lexer → Lexer
unfolding on_define on_undef
change l (defining t ts) lx = on_define l (t ∷ ts) lx
change l (removing t) lx = on_undef l (t ∷ []) lx

unfoldable pub changes : SrcLoc → List Change → Lexer → Lexer
unfolding change
changes l [] lx = lx
changes l (c ∷ cs) lx = changes l cs (change l c lx)

-- The body that a name has behind changes, by the last that names it.
abbrev pub body_behind : List Change → Bytes → Option (List Token) → Option (List Token)
body_behind [] n old = old
body_behind (defining t ts ∷ cs) n old =
    body_behind cs n (if bytes_eq t.text n then some ts else old)
body_behind (removing t ∷ cs) n old = body_behind cs n (if bytes_eq t.text n then none else old)

abbrev pub AllNames : List Change → Type 0
AllNames [] = Unit
AllNames (c ∷ cs) = ((name_of c).kind ≡ ident) × AllNames cs

lookup-change :
    (l : SrcLoc) (c : Change) (n : Bytes) (lx : Lexer)
    → (name_of c).kind ≡ ident
    → lookup n (change l c lx).macros ≡ body_behind (c ∷ []) n (lookup n lx.macros)
unfolding change error_if
lookup-change l (defining t ts) n lx h = ground (arith, lookup-insert t.text n ts lx.macros)
lookup-change l (removing t) n lx h = ground (arith, lookup-erase t.text n lx.macros)

-- Behind any sequence of #define and #undef on names, the body of each name is what the last of them
-- that names it says, or the one from before if none does.
pub lookup-changes :
    (l : SrcLoc) (cs : List Change) (n : Bytes) (lx : Lexer)
    → AllNames cs
    → lookup n (changes l cs lx).macros ≡ body_behind cs n (lookup n lx.macros)
unfolding changes
lookup-changes l [] n lx h = refl
lookup-changes l (defining t ts ∷ cs) n lx h =
    rw
      (
        lookup-changes l cs n (change l (defining t ts) lx) h.1,
        lookup-change l (defining t ts) n lx h.0,
      )
      refl
lookup-changes l (removing t ∷ cs) n lx h =
    rw (lookup-changes l cs n (change l (removing t) lx) h.1, lookup-change l (removing t) n lx h.0)
      refl
