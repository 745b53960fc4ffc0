-- ===== src/Lexer/Conds/Nesting.antt =====
-- Nested conditionals as trees, against the stack of `Cond` that the lexer keeps.
use hlang.Base.{
  Bool, true, false, not, List, [], ◌∷◌, ◌++◌, ◌≡◌, refl, none, some, arith, if◌then◌else◌,
  append_assoc,
}
use hlang.Lexer.{Cond}
use hlang.Lexer.Conds.{skipping, push_ifdef, push_if, outer_active, flip_else, pop_cond}

-- What stands on a line: text, an #ifdef (or #ifndef) or an #if (or #ifjit) with its value, #else,
-- #endif.
pub data Line {ℓ} (A : Type ℓ) : Type ℓ where
  text : A → Line A
  open_ifdef open_if : Bool → Line A
  branch close : Line A

-- A text whose conditionals are closed, and what C-like nesting keeps of it.
pub data Doc {ℓ} (A : Type ℓ) : Type ℓ where
  done : Doc A
  item : A → Doc A → Doc A
  ifdef_end if_end : Bool → Doc A → Doc A → Doc A
  ifdef_else if_else : Bool → Doc A → Doc A → Doc A → Doc A

module _ {ℓ} {A : Type ℓ} where
  -- the lines of a document, before others
  abbrev pub lines : Doc A → List (Line A) → List (Line A)
  lines done r = r
  lines (item a d) r = text a ∷ lines d r
  lines (ifdef_end b t d) r = open_ifdef b ∷ lines t (close ∷ lines d r)
  lines (if_end b t d) r = open_if b ∷ lines t (close ∷ lines d r)
  lines (ifdef_else b t e d) r = open_ifdef b ∷ lines t (branch ∷ lines e (close ∷ lines d r))
  lines (if_else b t e d) r = open_if b ∷ lines t (branch ∷ lines e (close ∷ lines d r))

  -- What is kept of a document: the branch that the value picks.
  abbrev pub kept : Doc A → List A
  kept done = []
  kept (item a d) = a ∷ kept d
  kept (ifdef_end b t d) = (if b then kept t else []) ++ kept d
  kept (if_end b t d) = (if b then kept t else []) ++ kept d
  kept (ifdef_else b t e d) = (if b then kept t else kept e) ++ kept d
  kept (if_else b t e d) = (if b then kept t else kept e) ++ kept d

  -- The lexer's run over the lines: the text that is not skipped, and the stack at the end. An #else
  -- or #endif with no open conditional leaves the stack.
  unfoldable pub run : List Cond → List (Line A) → List A × List Cond
  unfolding skipping push_ifdef push_if flip_else pop_cond
  run cs [] = ([], cs)
  run cs (text a ∷ ls) = let r = run cs ls in ((if skipping cs then r.0 else a ∷ r.0), r.1)
  run cs (open_ifdef b ∷ ls) = run (push_ifdef b cs) ls
  run cs (open_if b ∷ ls) = run (push_if b cs) ls
  run cs (branch ∷ ls) = run (elim (flip_else cs) [ none ↦ cs | some (seen, cs') ↦ cs' ]) ls
  run cs (close ∷ ls) = run (elim (pop_cond cs) [ none ↦ cs | some cs' ↦ cs' ]) ls

  -- text before what a run keeps
  abbrev pub before : List A → List A × List Cond → List A × List Cond
  before xs r = (xs ++ r.0, r.1)

outer_active-eq-not-skipping : (cs : List Cond) → outer_active cs ≡ not (skipping cs)
unfolding outer_active skipping
outer_active-eq-not-skipping [] = refl
outer_active-eq-not-skipping (c ∷ cs) = ground (arith, outer_active-eq-not-skipping cs)

-- the stack below an open conditional, and above it
skipping-push_ifdef :
    (b : Bool) (cs : List Cond) → skipping (push_ifdef b cs) ≡ (if skipping cs then true else not b)
unfolding skipping push_ifdef
skipping-push_ifdef true cs = ground arith
skipping-push_ifdef false cs = ground arith

skipping-push_if :
    (b : Bool) (cs : List Cond) → skipping (push_if b cs) ≡ (if skipping cs then true else not b)
unfolding skipping push_if
skipping-push_if true cs = ground arith
skipping-push_if false cs = ground arith

-- the stack behind the #else of an #ifdef, and of an #if
abbrev flipped : List Cond → List Cond
flipped cs = elim (flip_else cs) [ none ↦ cs | some (seen, cs') ↦ cs' ]

skipping-flip_ifdef :
    (b : Bool) (cs : List Cond)
    → skipping (flipped (push_ifdef b cs)) ≡ (if skipping cs then true else b)
unfolding skipping push_ifdef flip_else
skipping-flip_ifdef true cs = ground (arith, outer_active-eq-not-skipping cs)
skipping-flip_ifdef false cs = ground (arith, outer_active-eq-not-skipping cs)

skipping-flip_if :
    (b : Bool) (cs : List Cond)
    → skipping (flipped (push_if b cs)) ≡ (if skipping cs then true else b)
unfolding skipping push_if flip_else
skipping-flip_if true cs = ground (arith, outer_active-eq-not-skipping cs)
skipping-flip_if false cs = ground (arith, outer_active-eq-not-skipping cs)

module _ {ℓ} {A : Type ℓ} where
  before-before :
      (xs ys : List A) (r : List A × List Cond) → before xs (before ys r) ≡ before (xs ++ ys) r
  before-before xs ys r = rw append_assoc

  -- what a run keeps, by whether it starts in a skipped region
  abbrev pub live : List Cond → List A → List A
  live cs xs = if skipping cs then [] else xs

  abbrev pick : Bool → List A → List A
  pick s xs = if s then [] else xs

  pick-end :
      (s b : Bool) (t d : List A) (r : List A × List Cond)
      → before (pick (if s then true else not b) t) (before (pick s d) r)
        ≡ before (pick s ((if b then t else []) ++ d)) r
  pick-end true b t d r = refl
  pick-end false true t d r = before-before t d r
  pick-end false false t d r = refl

  pick-else :
      (s b : Bool) (t e d : List A) (r : List A × List Cond)
      → before
          (pick (if s then true else not b) t)
          (before (pick (if s then true else b) e) (before (pick s d) r))
        ≡ before (pick s ((if b then t else e) ++ d)) r
  pick-else true b t e d r = refl
  pick-else false true t e d r = before-before t d r
  pick-else false false t e d r = before-before e d r

  -- From any stack and whatever lines follow, the lines of a document put out what nesting keeps of
  -- it, or nothing in a skipped region, and leave the stack as they found it.
  pub run-lines :
      (d : Doc A) (cs : List Cond) (r : List (Line A))
      → run cs (lines d r) ≡ before (live cs (kept d)) (run cs r)
  unfolding run
  run-lines done cs r = ground arith
  run-lines (item a d) cs r = rw (run-lines d cs r) (ground arith)
  run-lines (ifdef_end b t d) cs r = rw (run-lines t (push_ifdef b cs) (close ∷ lines d r)) (
      rw (skipping-push_ifdef b cs, run-lines d cs r)
        (pick-end (skipping cs) b (kept t) (kept d) (run cs r)))
  run-lines (if_end b t d) cs r = rw (run-lines t (push_if b cs) (close ∷ lines d r)) (
      rw (skipping-push_if b cs, run-lines d cs r)
        (pick-end (skipping cs) b (kept t) (kept d) (run cs r)))
  run-lines (ifdef_else b t e d) cs r =
      rw (run-lines t (push_ifdef b cs) (branch ∷ lines e (close ∷ lines d r))) (
        rw (run-lines e (flipped (push_ifdef b cs)) (close ∷ lines d r)) (
          rw (skipping-push_ifdef b cs, skipping-flip_ifdef b cs, run-lines d cs r)
            (pick-else (skipping cs) b (kept t) (kept e) (kept d) (run cs r))))
  run-lines (if_else b t e d) cs r =
      rw (run-lines t (push_if b cs) (branch ∷ lines e (close ∷ lines d r))) (
        rw (run-lines e (flipped (push_if b cs)) (close ∷ lines d r)) (
          rw (skipping-push_if b cs, skipping-flip_if b cs, run-lines d cs r)
            (pick-else (skipping cs) b (kept t) (kept e) (kept d) (run cs r))))
