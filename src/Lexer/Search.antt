-- ===== src/Lexer/Search.antt =====
-- src/lexer.cpp: the search of `openInclude`.
use hlang.Base.{
  ◌≡◌, refl, ap, Bool, true, false, List, [], ◌∷◌, ◌++◌, Bytes, Option, none, some, arith, all_of,
  Option-cases, inl, inr,
}
use hlang.Lexer.{Lexer, Host, dir_of, push_source, try_paths, include_paths, open_include}

-- a file that cannot be opened
abbrev pub is_closed : Host → Bytes → Bool
is_closed h path = elim (h.open_file path) [ none ↦ true | some text ↦ false ]

-- The lexer reads from the first of some paths that can be opened.
pub record Opened (h : Host) (paths : List Bytes) (lx lx' : Lexer) : Type 0 where
  pub before : List Bytes
  pub path : Bytes
  pub after : List Bytes
  pub text : Bytes
  pub order : paths ≡ before ++ path ∷ after
  pub closed : all_of (is_closed h) before ≡ true
  pub opens : h.open_file path ≡ some text
  pub pushed : lx' ≡ push_source text path (dir_of path) lx

-- What the search over some paths gives.
abbrev pub Searched : Host → List Bytes → Lexer → Option Lexer → Type 0
Searched h paths lx none = all_of (is_closed h) paths ≡ true
Searched h paths lx (some lx') = Opened h paths lx lx'

Searched-cons :
    (h : Host) (path : Bytes) (paths : List Bytes) (lx : Lexer) (r : Option Lexer)
    → h.open_file path ≡ none
    → Searched h paths lx r
    → Searched h (path ∷ paths) lx r
Searched-cons h path paths lx none e s = ground (arith, e, s)
Searched-cons h path paths lx (some lx') e s = record {
  before = path ∷ s.before;
  path = s.path;
  after = s.after;
  text = s.text;
  order = ap (λ x. path ∷ x) s.order;
  closed = ground (arith, e, s.closed);
  opens = s.opens;
  pushed = s.pushed;
}

try_paths-Searched :
    (h : Host) (paths : List Bytes) (lx : Lexer) → Searched h paths lx (try_paths h paths lx)
unfolding try_paths
try_paths-Searched h [] lx = refl
try_paths-Searched h (path ∷ paths) lx = elim (Option-cases (h.open_file path)) [
  | inl e ↦
      rw (e, try_paths)
        (Searched-cons h path paths lx (try_paths h paths lx) e (try_paths-Searched h paths lx))
  | inr (text, e) ↦
      rw (e, try_paths)
        (record {
          before = [];
          path = path;
          after = paths;
          text = text;
          order = refl;
          closed = refl;
          opens = e;
          pushed = refl;
        })
]

-- `openInclude` fails only where none of its paths can be opened; else it pushes the text, the path
-- and the directory of the first that can.
pub open_include-Searched :
    (h : Host) (name : Bytes) (lx : Lexer)
    → Searched h (include_paths name lx) lx (open_include h name lx)
unfolding open_include
open_include-Searched h name lx = try_paths-Searched h (include_paths name lx) lx
