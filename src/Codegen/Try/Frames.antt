-- ===== src/Codegen/Try/Frames.antt =====
-- src/codegen.cpp, runtime/hcrt.c: the whole of a piece of code does what structured exceptions
-- promise, and what a `return` in the body of a `try` does to the frames.
use hlang.Base.{
  ℕ, zero, suc, ◌≡◌, refl, Bool, true, false, some, arith, ◌==◌, ◌∙◌, Bool-cases, inl, inr,
}
use mathlib.Core.Path.{subst}
use hlang.Runtime.Exceptions.{Task, Machine, Outcome, left, try_push}
use hlang.Codegen.Try.{
  Code, act, raise, return, seq, branch, repeat, try_catch, after_body, run, mentions, returning,
  tidy,
}
use hlang.Codegen.Try.Structured.{
  Effect, finishes, raises, returns, then_do, times_do, rethrown, handled, denote,
}
use hlang.Codegen.Try.Refinement.{
  Clear, Follows, Keeps-same, Keeps-Clear, Follows-then, Follows-times, Follows-more, throw-Follows,
  returned, try-Follows, below, stored,
}

-- code with no `return` does not return
returned-then :
    (e : Effect) (k : Task → Effect)
    → returned e ≡ false
    → ((t : Task) → returned (k t) ≡ false)
    → returned (then_do e k) ≡ false
returned-then (finishes t) k h x = x t
returned-then (raises t) k h x = refl
returned-then (returns t) k h x = h

returned-times :
    (n : ℕ) (k : Task → Effect) (t : Task)
    → ((u : Task) → returned (k u) ≡ false)
    → returned (times_do n k t) ≡ false
returned-times zero k t x = refl
returned-times (suc n) k t x = returned-then (k t) _ (x t) λ u. returned-times n k u x

module _ (site : ℕ) where
  returned-rethrown : (t : Task) → returned (rethrown site t) ≡ false
  returned-rethrown t = ground arith

  returned-handled :
      (k : Task → Effect) (e : Effect)
      → returned e ≡ false
      → ((t : Task) → returned (k t) ≡ false)
      → returned (handled site k e) ≡ false
  returned-handled k (finishes t) h x = refl
  returned-handled k (raises t) h x = returned-then (k _) (rethrown site) (x _) returned-rethrown
  returned-handled k (returns t) h x = h

  returned-denote : (c : Code) (t : Task) → returning c ≡ false → returned (denote site c t) ≡ false
  unfolding denote returning
  returned-denote (act f) t h = refl
  returned-denote (raise from ch) t h = refl
  returned-denote return t h = ground arith
  returned-denote (seq a b) t h =
      returned-then (denote site a t) _ (returned-denote a t (ground arith))
        λ u. returned-denote b u (ground arith)
  returned-denote (branch test a b) t h = elim (Bool-cases (test t)) [
    | inl e ↦ rw e (returned-denote a t (ground arith))
    | inr e ↦ rw e (returned-denote b t (ground arith))
  ]
  returned-denote (repeat n c) t h = returned-times n _ t λ u. returned-denote c u h
  returned-denote (try_catch f body handler) t h =
      returned-handled _ (denote site body t) (returned-denote body t (ground arith))
        λ u. returned-denote handler u (ground arith)

-- what a part does, seen from the whole, which owns more
Follows-part :
    (own less : ℕ → Bool) (m : Machine) (e : Effect) (r : Outcome)
    → Clear own m
    → ((g : ℕ) → own g ≡ false → less g ≡ false)
    → (Clear less m → Follows less m e r)
    → Follows own m e r
Follows-part own less m e r c w f = Follows-more less own m e r w (f λ g x. w g (c g x))

-- what the body of a `try` does not own
apart :
    (f g : ℕ) (body handler : Code)
    → mentions f body ≡ false
    → below (λ h. mentions h (try_catch f body handler)) f g ≡ false
    → mentions g body ≡ false
unfolding mentions
apart f g body handler h x = elim (Bool-cases (g == f)) [
  | inl e ↦ subst (λ u. mentions u body ≡ false) (grind arith) h
  | inr e ↦ ground arith
]

pushed-Clear : (f : ℕ) (m : Machine) (own : ℕ → Bool) → own f ≡ false → Clear own (try_push f m)
unfolding try_push
pushed-Clear f m own o g e = let x : f ≡ g = grind arith in subst (λ u. own u ≡ false) x o

module _ (site : ℕ) where
  -- What the code does that is emitted for any nesting of `try`, with sequences, branches and loops,
  -- where no `try` has its own frame or a `return` in its body, is what structured exceptions
  -- promise: from a state whose innermost frame is not one of the code's, it comes to its end, or
  -- returns, with the task that is promised and with the frames of before, and an exception that it
  -- does not catch is thrown to the innermost frame, which is taken off, or ends the process if
  -- there is none.
  pub run-Follows :
      (c : Code) (m : Machine)
      → tidy c ≡ true
      → Clear (λ g. mentions g c) m
      → Follows (λ g. mentions g c) m (denote site c m.task) (run site c m)
  unfolding run denote tidy mentions try_push
  run-Follows (act f) m h c = (refl, Keeps-same _ m (f m.task))
  run-Follows (raise from ch) m h c = throw-Follows _ from ch m
  run-Follows return m h c = (refl, Keeps-same _ m m.task)
  run-Follows (seq a b) m h c =
      Follows-then _ m (denote site a m.task) (run site a m) _ _ c
        (Follows-part _ _ m _ _ c (λ g x. ground arith) λ d. run-Follows a m (ground arith) d)
        λ n kept.
          Follows-part _ _ n _ _ (Keeps-Clear _ m n kept c) (λ g x. ground arith)
            λ d. run-Follows b n (ground arith) d
  run-Follows (branch test a b) m h c = elim (Bool-cases (test m.task)) [
    | inl e ↦
        rw e (Follows-part _ _ m _ _ c (λ g x. ground arith) λ d. run-Follows a m (ground arith) d)
    | inr e ↦
        rw e (Follows-part _ _ m _ _ c (λ g x. ground arith) λ d. run-Follows b m (ground arith) d)
  ]
  run-Follows (repeat n b) m h c = Follows-times _ n m _ _ c λ o c'. run-Follows b o h c'
  run-Follows (try_catch f body handler) m h c =
      try-Follows site _ f m (denote site body m.task) (run site body (try_push f m)) _ _ c
        (grind arith) (returned-denote site body m.task (ground arith))
        (Follows-more _ _ (try_push f m) _ _ (λ g x. apart f g body handler (ground arith) x)
          (run-Follows body (try_push f m) (ground arith) (pushed-Clear f m _ (ground arith))))
        λ n d.
          Follows-part _ _ n _ _ d (λ g x. ground arith)
            λ d'. run-Follows handler n (ground arith) d'

  after_body-return :
      (own : ℕ → Bool) (f : ℕ) (m : Machine) (t : Task) (r : Outcome) (k : Machine → Outcome)
      → Follows own (try_push f m) (returns t) r
      → own f ≡ false
      → ((n : Machine) × (after_body site f k r ≡ left n) × (n.top ≡ some f) × (n.prev f ≡ m.top))
  unfolding after_body try_push
  after_body-return own f m t (left n) k x o =
      (n, refl, x.1.top, x.1.prev f o ∙ stored m.prev f m.top)
  after_body-return own f m t _ k x o = absurd x

  -- A `try` whose body returns (no `try` within it has a `return` in its own body) leaves its frame
  -- behind: the function returns with the frame of the `try` still the innermost one, above those
  -- of before.
  pub return-leaks :
      (f : ℕ) (body handler : Code) (m : Machine) (t : Task)
      → tidy body ≡ true
      → mentions f body ≡ false
      → denote site body m.task ≡ returns t
      → ((n : Machine) × (run site (try_catch f body handler) m ≡ left n)
          × (n.top ≡ some f)
          × (n.prev f ≡ m.top))
  unfolding run try_push
  return-leaks f body handler m t h o e =
      after_body-return (λ g. mentions g body) f m t (run site body (try_push f m))
        (run site handler)
        (subst (λ u. Follows (λ g. mentions g body) (try_push f m) u (run site body (try_push f m)))
          e (run-Follows body (try_push f m) h (pushed-Clear f m _ o)))
        o
