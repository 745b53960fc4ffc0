-- ===== src/Codegen/Try/Refinement.antt =====
-- src/codegen.cpp, runtime/hcrt.c: the emitted code with its frames does what structured exceptions
-- promise.
use hlang.Base.{
  ℕ, zero, suc, ◌≡◌, refl, ap, Bool, true, false, ◌&&◌, not, Bytes, Option, none, some, arith, ◌==◌,
  sym, ◌∙◌, Bool-cases, inl, inr,
}
use mathlib.Core.Path.{subst}
use hlang.Base.Int.{ℤ, pos, eq_ℤ}
use hlang.Runtime.Exceptions.{
  Task, Machine, Outcome, normal, jumped, left, exited, try_push, try_pop, throw, catch_enter,
  catch_done, store_prev,
}
use hlang.Codegen.Try.{then_run, times, after_body}
use hlang.Codegen.Try.Structured.{
  Effect, finishes, raises, returns, then_do, times_do, cleared, rethrown, handled,
}

-- The frames are those of before, but for some that the code owns.
pub record Keeps (own : ℕ → Bool) (m m' : Machine) : Type 0 where
  pub top : m'.top ≡ m.top
  pub prev : (g : ℕ) → own g ≡ false → m'.prev g ≡ m.prev g

-- the innermost frame is none of those
abbrev pub Clear : (ℕ → Bool) → Machine → Type 0
Clear own m = (g : ℕ) → m.top ≡ some g → own g ≡ false

-- The emitted code does what is promised: it comes to its end or returns with the frames of before,
-- and an exception takes the innermost frame off and jumps to it, or ends the process if there is
-- none.
abbrev pub Follows : (ℕ → Bool) → Machine → Effect → Outcome → Type 0
Follows own m (finishes t) (normal m') = (m'.task ≡ t) × Keeps own m m'
Follows own m (returns t) (left m') = (m'.task ≡ t) × Keeps own m m'
Follows own m (raises t) (jumped g m') =
    (m.top ≡ some g)
    × (m'.task ≡ t)
    × (m'.top ≡ m.prev g)
    × ((h : ℕ) → own h ≡ false → m'.prev h ≡ m.prev h)
Follows own m (raises t) (exited s m') = (m.top ≡ none) × (m'.task ≡ t)
Follows own m _ _ = ⊥

module _ (own : ℕ → Bool) where
  pub Keeps-same : (m : Machine) (t : Task) → Keeps own m (record m { task = t })
  Keeps-same m t = record { top = refl; prev = λ g h. refl }

  Keeps-trans : {m n o : Machine} → Keeps own m n → Keeps own n o → Keeps own m o
  Keeps-trans a b = record { top = b.top ∙ a.top; prev = λ g h. b.prev g h ∙ a.prev g h }

  pub Keeps-Clear : (m n : Machine) → Keeps own m n → Clear own m → Clear own n
  Keeps-Clear m n k c g e = c g (sym k.top ∙ e)

  -- what follows from a later state follows from the first
  Follows-from :
      (m n : Machine) (e : Effect) (r : Outcome)
      → Keeps own m n
      → Clear own m
      → Follows own n e r
      → Follows own m e r
  Follows-from m n (finishes t) (normal o) k c f = (f.0, Keeps-trans k f.1)
  Follows-from m n (returns t) (left o) k c f = (f.0, Keeps-trans k f.1)
  Follows-from m n (raises t) (jumped g o) k c f =
      let e = sym k.top ∙ f.0 in (e, f.1, f.2 ∙ k.prev g (c g e), λ h x. f.3 h x ∙ k.prev h x)
  Follows-from m n (raises t) (exited s o) k c f = (sym k.top ∙ f.0, f.1)
  Follows-from m n _ _ k c f = absurd f

  -- one piece of code after another
  pub Follows-then :
      (m : Machine) (e : Effect) (r : Outcome) (k : Task → Effect) (k' : Machine → Outcome)
      → Clear own m
      → Follows own m e r
      → ((n : Machine) → Keeps own m n → Follows own n (k n.task) (k' n))
      → Follows own m (then_do e k) (then_run r k')
  Follows-then m (finishes t) (normal n) k k' c f x =
      Follows-from m n (k t) (k' n) f.1 c (subst (λ u. Follows own n (k u) (k' n)) f.0 (x n f.1))
  Follows-then m (returns t) (left n) k k' c f x = f
  Follows-then m (raises t) (jumped g n) k k' c f x = f
  Follows-then m (raises t) (exited s n) k k' c f x = f
  Follows-then m _ _ k k' c f x = absurd f

  pub Follows-times :
      (n : ℕ) (m : Machine) (k : Task → Effect) (k' : Machine → Outcome)
      → Clear own m
      → ((o : Machine) → Clear own o → Follows own o (k o.task) (k' o))
      → Follows own m (times_do n k m.task) (times n k' m)
  Follows-times zero m k k' c x = (refl, Keeps-same m m.task)
  Follows-times (suc n) m k k' c x =
      Follows-then m (k m.task) (k' m) _ _ c (x m c)
        λ o kept. Follows-times n o k k' (Keeps-Clear m o kept c) x

-- code may own more
pub Follows-more :
    (own more : ℕ → Bool) (m : Machine) (e : Effect) (r : Outcome)
    → ((g : ℕ) → more g ≡ false → own g ≡ false)
    → Follows own m e r
    → Follows more m e r
Follows-more own more m (finishes t) (normal n) w f =
    (f.0, record { top = f.1.top; prev = λ g h. f.1.prev g (w g h) })
Follows-more own more m (returns t) (left n) w f =
    (f.0, record { top = f.1.top; prev = λ g h. f.1.prev g (w g h) })
Follows-more own more m (raises t) (jumped g n) w f = (f.0, f.1, f.2, λ h x. f.3 h (w h x))
Follows-more own more m (raises t) (exited s n) w f = f
Follows-more own more m _ _ w f = absurd f

-- a throw
pub throw-Follows :
    (own : ℕ → Bool) (from : ℕ) (ch : ℤ) (m : Machine)
    → Follows own m (raises (record m.task { except_ch = ch; caller = from })) (throw from ch m)
unfolding throw
throw-Follows own from ch m = by_top m.task m.top m.prev m.printed
  where
    by_top :
        (t : Task) (o : Option ℕ) (p : ℕ → Option ℕ) (b : Bytes)
        → let n : Machine = record { task = t; top = o; prev = p; printed = b } in
          Follows own n (raises (record t { except_ch = ch; caller = from })) (throw from ch n)
    by_top t none p b = (refl, refl)
    by_top t (some f) p b = (refl, refl, refl, λ h x. refl)

-- what a `try` owns in its body
abbrev pub below : (ℕ → Bool) → ℕ → ℕ → Bool
below own f g = own g && not (g == f)

below_self : (own : ℕ → Bool) (f : ℕ) → below own f f ≡ false
below_self own f = grind arith

-- The frame is off again.
Keeps-store :
    (own : ℕ → Bool) (f : ℕ) (m n : Machine)
    → own f ≡ true
    → n.top ≡ m.top
    → ((h : ℕ) → below own f h ≡ false → n.prev h ≡ store_prev m.prev f m.top h)
    → Keeps own m n
Keeps-store own f m n o e x = record {
  top = e;
  prev = λ g h. x g (rw h refl) ∙ rw (other g h) refl;
}
  where
    other : (g : ℕ) → own g ≡ false → (g == f) ≡ false
    other g h = grind arith

try_pop-some : (f : ℕ) (n : Machine) → n.top ≡ some f → try_pop n ≡ record n { top = n.prev f }
unfolding try_pop
try_pop-some f n e = rw e refl

-- a frame is the top one within its own `try`
pub stored : (p : ℕ → Option ℕ) (f : ℕ) (v : Option ℕ) → store_prev p f v f ≡ v
stored p f v = ground arith

abbrev pub returned : Effect → Bool
returned (returns t) = true
returned _ = false

module _ (site : ℕ) where
  catch_done-Follows :
      (own : ℕ → Bool) (m : Machine) → Follows own m (rethrown site m.task) (catch_done site m)
  unfolding catch_done catch_enter
  catch_done-Follows own m = elim (Bool-cases (eq_ℤ m.task.catch_except (pos 0))) [
    | inl e ↦ rw e (throw-Follows own site m.task.except_ch m)
    | inr e ↦ rw e (refl, Keeps-same own m (cleared m.task))
  ]

  -- The frame is pushed, and the code of the body does what it promises above it.
  pub try-Follows :
      (own : ℕ → Bool) (f : ℕ) (m : Machine) (e : Effect) (r : Outcome) (k : Task → Effect)
      (k' : Machine → Outcome)
      → Clear own m
      → own f ≡ true
      → returned e ≡ false
      → Follows (below own f) (try_push f m) e r
      → ((n : Machine) → Clear own n → Follows own n (k n.task) (k' n))
      → Follows own m (handled site k e) (after_body site f k' r)
  unfolding after_body try_push try_pop catch_enter
  try-Follows own f m (finishes t) (normal n) k k' c o w x y = rw (try_pop-some f n x.1.top) (
    x.0,
    Keeps-store own f m _ o (x.1.prev f (below_self own f) ∙ stored m.prev f m.top) x.1.prev,
  )
  try-Follows own f m (returns t) (left n) k k' c o w x y = grind arith
  try-Follows own f m (raises t) (jumped g n) k k' c o w x y =
      let g≡f : g ≡ f = grind arith in
      let same : (g == f) ≡ true = grind arith in
      let kept : Keeps own m (catch_enter n) =
        Keeps-store own f m _ o (x.2 ∙ ap (store_prev m.prev f m.top) g≡f ∙ stored m.prev f m.top)
          x.3 in
      rw same (
        Follows-from own m (catch_enter n) _ _ kept c (
          Follows-then own (catch_enter n) (k (cleared t)) (k' (catch_enter n)) (rethrown site)
            (catch_done site) (Keeps-Clear own m (catch_enter n) kept c)
            (subst (λ u. Follows own (catch_enter n) (k (cleared u)) (k' (catch_enter n))) x.1
              (y (catch_enter n) (Keeps-Clear own m (catch_enter n) kept c)))
            λ o' kept'. catch_done-Follows own o'))
  try-Follows own f m (raises t) (exited s n) k k' c o w x y = cc (x.0)
  try-Follows own f m _ _ k k' c o w x y = absurd x
