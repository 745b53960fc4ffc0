-- ===== src/Parser/Sound.antt =====
-- src/parser.cpp: what becomes of a parser, and of its tokens where some are taken.
use hlang.Base.{
  ℕ, ◌-◌, ◌≤◌, ◌≡◌, refl, true, List, [], ◌∷◌, arith, length, drop, if◌then◌else◌, all_of, not,
  if-elim,
}
use hlang.Token.{Token, SrcLoc, eof, ◌=tok◌}
use hlang.Parser.{Parser, Message, tok}

-- The reports in a log are in another too, behind some more.
pub data Extends (old : List (SrcLoc × Message)) : List (SrcLoc × Message) → Type 0 where
  same : Extends old old
  there :
      {new : List (SrcLoc × Message)} {r : SrcLoc × Message}
      → Extends old new
      → Extends old (r ∷ new)

-- What has come of a parser `o`: the classes and their names are the same, reports are only added,
-- and none of the tokens is the end of the file.
pub record Sound (o p : Parser) : Type 0 where
  pub store : p.store ≡ o.store
  pub classes : p.classes ≡ o.classes
  pub log : Extends o.log p.log
  pub tokens : all_of (λ (t : Token). not (t.kind =tok eof)) p.toks ≡ true

pub Sound-drop_one :
    (st : Parser) (p : Parser) (ts : List Token)
    → p.toks ≡ ts
    → Sound st p
    → (length (drop 1 ts) ≤ length ts - 1) × Sound st (record p { toks = drop 1 ts })
Sound-drop_one st p [] e s =
    (omega arith, record { store = s.store; classes = s.classes; log = s.log; tokens = refl })
Sound-drop_one st p (t ∷ ts) e s = (
  omega arith,
  record {
    store = s.store;
    classes = s.classes;
    log = s.log;
    tokens = ground (arith, s.tokens, e);
  },
)

-- where `expect` misses, a token is dropped too
pub missed-eats :
    (st : Parser) (p : Parser) (ts : List Token) (log : List (SrcLoc × Message))
    → Extends st.log log
    → Sound st (record p { toks = ts })
    → let t = tok 0 (record p { toks = ts }) in
      let rest = if t.kind =tok eof then ts else drop 1 ts in
      (length rest ≤ length ts - 1) × Sound st (record p { log = log; toks = rest })
unfolding tok
missed-eats st p [] log g s =
    (omega arith, record { store = s.store; classes = s.classes; log = g; tokens = refl })
missed-eats st p (t ∷ ts) log g s =
    if-elim
      (λ (r : List Token).
        (length r ≤ length (t ∷ ts) - 1) × Sound st (record p { log = log; toks = r }))
      (t.kind =tok eof) _ _ (λ h. absurd (ground (arith, h, s.tokens)))
      (λ h. (
        omega arith,
        record { store = s.store; classes = s.classes; log = g; tokens = ground (arith, s.tokens) },
      ))

-- What a scan over the tokens leaves of them.
pub record Left (st : Parser) (p : Parser) (n : ℕ) (ts : List Token) : Type 0 where
  pub fewer : length ts ≤ n
  pub sound : Sound st (record p { toks = ts })

pub Left-cons :
    (st : Parser) (p : Parser) (t : Token) (ts us : List Token)
    → Left st p (length ts) us
    → Left st p (length (t ∷ ts)) us
Left-cons st p t ts us l = record { fewer = omega (arith, l.fewer); sound = l.sound }

pub Left-all :
    (st : Parser) (p : Parser) (ts : List Token)
    → Sound st (record p { toks = ts })
    → Left st p (length ts) ts
Left-all st p ts s = record { fewer = omega arith; sound = s }

pub Sound-tail :
    (st : Parser) (p : Parser) (t : Token) (ts : List Token)
    → Sound st (record p { toks = t ∷ ts })
    → Sound st (record p { toks = ts })
Sound-tail st p t ts s = record {
  store = s.store;
  classes = s.classes;
  log = s.log;
  tokens = ground (arith, s.tokens);
}
