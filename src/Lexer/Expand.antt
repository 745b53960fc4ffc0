-- ===== src/Lexer/Expand.antt =====
-- src/lexer.cpp: macro expansion, `builtinMacro` and `expandOrReturn`.
pub mod Termination
use hlang.Base.{
  ℕ, zero, suc, Bool, true, false, not, ◌&&◌, ◌||◌, List, [], ◌∷◌, ◌++◌, if◌then◌else◌, Bytes,
  Option, none, some, codes, bytes_eq, some_of, select,
}
use hlang.Base.Dict.{Dict, lookup}
use hlang.Base.Int.{pos}
use hlang.Run.{Run, ok, out_of_fuel, ◌>>=◌}
use hlang.Token.{Token, ident, int_lit, str_lit, ◌=tok◌}
use hlang.Lexer.{Lexer, Host, dir_of}

-- `builtinMacro`: none where the name is no builtin
unfoldable pub builtin_macro : Host → Bool → Token → Option Token
unfolding bytes_eq dir_of
builtin_macro h jit t =
    let n = t.text in
    let l = t.loc in
    if bytes_eq n (codes "__LINE__")
    then some (record t { kind = int_lit; ival = pos l.line })
    else if bytes_eq n (codes "__FILE__")
    then some (record t { kind = str_lit; text = l.file })
    else if bytes_eq n (codes "__DIR__")
    then some (record t { kind = str_lit; text = dir_of l.file })
    else if bytes_eq n (codes "__CMD_LINE__")
    then some (record t { kind = int_lit; ival = if jit then pos 1 else pos 0 })
    else if bytes_eq n (codes "__DATE__")
    then some (record t { kind = str_lit; text = h.date })
    else if bytes_eq n (codes "__TIME__")
    then some (record t { kind = str_lit; text = h.time })
    else none

-- `expanding_.count(name)`
unfoldable pub contains : Bytes → List Bytes → Bool
unfolding bytes_eq
contains name = some_of (λ k. bytes_eq k name)

-- `expanding_.erase(name)`
unfoldable pub without : Bytes → List Bytes → List Bytes
unfolding bytes_eq
without name = select (λ k. not (bytes_eq k name))

-- The body of the macro that a token of a body enters, if it enters one.
unfoldable pub entered : Dict (List Token) → List Bytes → Token → Option (List Token)
unfolding contains lookup
entered macros ex bt =
    if bt.kind =tok ident && not bt.no_expand && not (contains bt.text ex)
    then lookup bt.text macros
    else none

-- the copy that the lambda `expand` emits, at the location of the use
unfoldable pub emitted : Host → Bool → Token → Token → Token
unfolding builtin_macro
emitted h jit t bt =
    let copy = record bt { loc = t.loc } in
    if copy.kind =tok ident
    then elim (builtin_macro h jit copy) [ none ↦ copy | some c ↦ c ]
    else copy

-- The lambda `expand`. Fuel is spent on entering a macro.
unfoldable pub expand :
    Host → Bool → Dict (List Token) → Token → ℕ → List Bytes → List Token → Run (List Token)
unfolding entered emitted
expand h jit macros t f ex [] = ok []
expand h jit macros t zero ex (bt ∷ body) =
    let tail = expand h jit macros t zero ex body in
    elim (entered macros ex bt) [
      | some inner ↦ out_of_fuel
      | none ↦ tail >>= λ out. ok (emitted h jit t bt ∷ out)
    ]
expand h jit macros t (suc f) ex (bt ∷ body) =
    let tail = expand h jit macros t (suc f) ex body in
    elim (entered macros ex bt) [
      | some inner ↦
          expand h jit macros t f (bt.text ∷ ex) inner >>= λ head. tail >>= λ out. ok (head ++ out)
      | none ↦ tail >>= λ out. ok (emitted h jit t bt ∷ out)
    ]

-- What `expandOrReturn` does with the expansion of a macro.
unfoldable pub deliver : Lexer → List Token → Option Token × Lexer
deliver lx [] = (none, lx)
deliver lx (t ∷ out) = (some t, record lx { pending = out ++ lx.pending })

-- `expandOrReturn`, up to the call for the next token: none where the macro was empty.
unfoldable pub expand_token : Host → ℕ → Token → Lexer → Run (Option Token × Lexer)
unfolding builtin_macro contains without lookup expand deliver
expand_token h f t lx =
    let guarded = ok (some (record t { no_expand = true }), lx) in
    let started = record lx { expanding = t.text ∷ lx.expanding } in
    let done = record started { expanding = without t.text started.expanding } in
    let entering = λ (body : List Token).
      expand h lx.jit_mode lx.macros t f started.expanding body >>= λ out. ok (deliver done out) in
    if not (t.kind =tok ident) || t.no_expand
    then ok (some t, lx)
    else elim (builtin_macro h lx.jit_mode t) [
      | some b ↦ ok (some b, lx)
      | none ↦ elim (lookup t.text lx.macros) [
        | none ↦ ok (some t, lx)
        | some body ↦ if contains t.text lx.expanding then guarded else entering body
      ]
    ]
