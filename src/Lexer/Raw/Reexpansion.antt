-- ===== src/Lexer/Raw/Reexpansion.antt =====
-- A macro that ends in its own name behind another token, in the token stream.
use hlang.Base.{
  ℕ, zero, suc, Bool, false, List, [], ◌∷◌, ◌≡◌, Bytes, none, some, arith, bytes_eq_refl,
}
use hlang.Base.Dict.{Dict, lookup}
use hlang.Run.{ok}
use hlang.Token.{Token, SrcLoc, blank, ident, ◌=tok◌}
use hlang.Lexer.{Lexer, Host}
use hlang.Lexer.Expand.{
  builtin_macro, contains, without, entered, emitted, expand, deliver, expand_token,
}
use hlang.Lexer.Raw.{pull, next}

-- the token that `lexToken` makes of a name
abbrev pub word : Bytes → SrcLoc → Token
word name l = record (blank l) { kind = ident; text = name }

-- A lexer that is about to hand out a name.
abbrev pub waiting : Lexer → Token → Lexer
waiting lx n = record lx { pending = n ∷ []; expanding = [] }

module _ (h : Host) (jit : Bool) (name : Bytes) (l at : SrcLoc) (t : Token) where
  -- The body `t N`, expanded at `N` while `N` is being expanded.
  expand-pair :
      (f : ℕ) (macros : Dict (List Token))
      → builtin_macro h jit (word name l) ≡ none
      → (t.kind =tok ident) ≡ false
      → expand h jit macros (word name l) f (name ∷ []) (t ∷ word name at ∷ [])
        ≡ ok (record t { loc = l } ∷ word name l ∷ [])
  unfolding expand entered emitted contains
  expand-pair zero macros plain other = ground (arith, bytes_eq_refl name, other, plain)
  expand-pair (suc f) macros plain other = ground (arith, bytes_eq_refl name, other, plain)

-- Under `#define N t N`, with a token `t` that is no identifier and a name that is no builtin, a
-- call of `next` at the name gives `t`, and leaves the lexer in the very state that it found: the
-- guard against recursion is gone when the name is read from the queue.
pub next-waiting :
    (h : Host) (f : ℕ) (lx : Lexer) (name : Bytes) (l at : SrcLoc) (t : Token)
    → builtin_macro h lx.jit_mode (word name l) ≡ none
    → (t.kind =tok ident) ≡ false
    → lookup name lx.macros ≡ some (t ∷ word name at ∷ [])
    → next (suc f) h (waiting lx (word name l))
      ≡ ok (record t { loc = l }, waiting lx (word name l))
unfolding next pull expand_token deliver contains without
next-waiting h f lx name l at t plain other body =
    rw (
      plain,
      body,
      expand-pair h lx.jit_mode name l at t f lx.macros plain other,
      bytes_eq_refl name,
    )
