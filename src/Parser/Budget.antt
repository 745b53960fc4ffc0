-- ===== src/Parser/Budget.antt =====
-- src/parser.cpp: what a member of the parser does to the tokens that are left.
use hlang.Base.{
  ℕ, zero, suc, ◌+◌, ◌-◌, ◌≤◌, ◌≡◌, refl, Bool, true, false, List, [], ◌∷◌, Option, none, some,
  arith, length, if◌then◌else◌, if-elim,
}
use hlang.Run.{Run, ok, undefined, out_of_fuel}
use hlang.Token.{Token, Punct, SrcLoc, is}
use hlang.Parser.{
  Parser, M, Message, give, get, ◌>>=◌, on_option, take, accept, expect, error, error_here, at, tok,
}
use hlang.Parser.Levels.{tokens_left}
use hlang.Parser.Sound.{Sound, Sound-drop_one, missed-eats, there}

-- no punctuator is at hand where no token is left
at-empty :
    (q : Punct) (p : Parser) (ts : List Token)
    → length ts ≤ 0
    → at q 0 (record p { toks = ts }) ≡ false
unfolding at tok is
at-empty q p [] h = ground arith
at-empty q p (t ∷ ts) h = absurd (omega (arith, h))

at-none : (q : Punct) (p : Parser) → length p.toks ≤ 0 → at q 0 p ≡ false
at-none q p h = at-empty q p p.toks h

module _ {ℓ} {A : Type ℓ} (st : Parser) where
  -- The run has an outcome: a value, at least `e` tokens fewer than `n`, and what `Sound` says. An
  -- undefined operation of C++ is an outcome where `u` allows it.
  abbrev pub Ends : Bool → ℕ → ℕ → Run (A × Parser) → Type 0
  Ends u e n (ok (a, q)) = (length q.toks ≤ n - e) × Sound st q
  Ends u e n undefined = u ≡ true
  Ends u e n out_of_fuel = ⊥

-- With `b` tokens at most, in a state that a parser has come to, a member ends, and takes `e` tokens or
-- all that are left.
pub record Within {ℓ} {A : Type ℓ} (st : Parser) (u : Bool) (e b : ℕ) (m : M A) : Type ℓ where
  pub at : (p : Parser) → Sound st p → length p.toks ≤ b → Ends st u e (length p.toks) (m p)

module _ {ℓ} {A : Type ℓ} (st : Parser) (u : Bool) where
  Ends-weaken :
      (d e n k : ℕ) (r : Run (A × Parser)) → n - d ≤ k - e → Ends st u d n r → Ends st u e k r
  Ends-weaken d e n k (ok (a, q)) h x = (omega (arith, x.0, h), x.1)
  Ends-weaken d e n k undefined h x = x
  Ends-weaken d e n k out_of_fuel h x = x

module _ {ℓ} {A : Type ℓ} {st : Parser} {u : Bool} where
  pub Within-weaken : {e b : ℕ} {m : M A} → Within st u e b m → Within st u 0 b m
  Within-weaken {e} {b} {m} h = record {
    at =
        λ p s l. let n = length p.toks in Ends-weaken st u e 0 n n (m p) (omega arith) (h.at p s l);
  }

  pub Within-le : {e b c : ℕ} {m : M A} → b ≤ c → Within st u e c m → Within st u e b m
  Within-le le h = record { at = λ p s l. h.at p s (omega (arith, l, le)) }

  pub Within-give : {b : ℕ} (a : A) → Within st u 0 b (give a)
  unfolding give
  Within-give a = record { at = λ p s l. (omega arith, s) }

  pub Within-get : {b : ℕ} (f : Parser → A) → Within st u 0 b (get f)
  unfolding get
  Within-get f = record { at = λ p s l. (omega arith, s) }

  pub Within-if :
      {e b : ℕ} (t : Bool) (m n : M A)
      → Within st u e b m
      → Within st u e b n
      → Within st u e b (if t then m else n)
  Within-if true m n x y = x
  Within-if false m n x y = y

module _ {ℓ} {A B : Type ℓ} {st : Parser} {u : Bool} where
  pub Within-on_option :
      {e b : ℕ} (o : Option A) (m : M B) (f : A → M B)
      → Within st u e b m
      → ((a : A) → Within st u e b (f a))
      → Within st u e b (on_option o m f)
  Within-on_option none m f x y = x
  Within-on_option (some a) m f x y = y a

  Ends-bind :
      (d e n b : ℕ) (r : Run (A × Parser)) (f : A → M B)
      → n ≤ b
      → Ends st u d n r
      → ((a : A) → Within st u e (b - d) (f a))
      → Ends st u (d + e) n (hlang.Run.◌>>=◌ r λ (a, q). f a q)
  Ends-bind d e n b (ok (a, q)) f h x k =
      Ends-weaken st u e (d + e) (length q.toks) n (f a q) (omega (arith, x.0))
        ((k a).at q x.1 (omega (arith, x.0, h)))
  Ends-bind d e n b undefined f h x k = x
  Ends-bind d e n b out_of_fuel f h x k = x

  -- one member after another
  pub Within-then :
      (d e : ℕ) {b : ℕ} (m : M A) (f : A → M B)
      → Within st u d b m
      → ((a : A) → Within st u e (b - d) (f a))
      → Within st u (d + e) b (m >>= f)
  unfolding ◌>>=◌
  Within-then d e m f x k = record {
    at = λ p s l. Ends-bind d e (length p.toks) _ (m p) f l (x.at p s l) k;
  }

  pub Within-bind :
      {b : ℕ} (m : M A) (f : A → M B)
      → Within st u 0 b m
      → ((a : A) → Within st u 0 b (f a))
      → Within st u 0 b (m >>= f)
  Within-bind m f x k = Within-then 0 0 m f x λ a. Within-le (omega arith) (k a)

module _ {st : Parser} {u : Bool} where
  pub take-eats : {b : ℕ} → Within st u 1 b take
  unfolding take
  take-eats = record { at = λ p s l. Sound-drop_one st p p.toks refl s }

  pub take-Within : {b : ℕ} → Within st u 0 b take
  take-Within = Within-weaken take-eats

  pub expect-eats : {b : ℕ} (q : Punct) → Within st u 1 b (expect q)
  unfolding expect
  expect-eats q = record {
    at = λ p s l.
        let n = length p.toks in
        if-elim (Ends st u 1 n) (at q 0 p) _ _ (λ h. Sound-drop_one st p p.toks refl s)
          (λ h. missed-eats st p p.toks _ (there s.log) s);
  }

  pub expect-Within : {b : ℕ} (q : Punct) → Within st u 0 b (expect q)
  expect-Within q = Within-weaken (expect-eats q)

  pub accept-Within : {b : ℕ} (q : Punct) → Within st u 0 b (accept q)
  unfolding accept
  accept-Within q = record {
    at = λ p s l.
        let n = length p.toks in
        if-elim (Ends st u 0 n) (at q 0 p) _ _
          (λ h. let r = Sound-drop_one st p p.toks refl s in (omega (arith, r.0), r.1))
          (λ h. (omega arith, s));
  }

  pub error-Within : {b : ℕ} (l : SrcLoc) (m : Message) → Within st u 0 b (error l m)
  unfolding error
  error-Within l m = record {
    at = λ p s h. (
      omega arith,
      record { store = s.store; classes = s.classes; log = there s.log; tokens = s.tokens },
    );
  }

  pub error_here-Within : {b : ℕ} (m : Message) → Within st u 0 b (error_here m)
  unfolding error_here error
  error_here-Within m = record {
    at = λ p s h. (
      omega arith,
      record { store = s.store; classes = s.classes; log = there s.log; tokens = s.tokens },
    );
  }

module _ {B : Type 0} {st : Parser} {u : Bool} where
  -- behind `take` the budget is one less
  pub take-bind :
      {b : ℕ} (f : Token → M B)
      → ((t : Token) → Within st u 0 b (f t))
      → Within st u 1 (suc b) (take >>= f)
  take-bind f k = Within-then 1 0 take f take-eats λ t. Within-le (omega arith) (k t)

  pub take-bind_weak :
      {b : ℕ} (f : Token → M B)
      → ((t : Token) → Within st u 0 b (f t))
      → Within st u 0 (suc b) (take >>= f)
  take-bind_weak f k = Within-weaken (take-bind f k)

  -- a member that goes on with the number of tokens that are left
  pub Within-tokens :
      {b : ℕ} (f : ℕ → M B)
      → ((n : ℕ) → n ≤ b → Within st u 0 n (f n))
      → Within st u 0 b (get tokens_left >>= f)
  unfolding ◌>>=◌
  Within-tokens f k = record { at = λ p s l. (k (length p.toks) l).at p s (omega arith) }

  -- what a test has found behind `accept`
  pub accept-bind :
      {b : ℕ} (q : Punct) (f : Bool → M B)
      → Within st u 0 b (f true)
      → Within st u 0 (suc b) (f false)
      → Within st u 0 (suc b) (accept q >>= f)
  unfolding accept ◌>>=◌
  accept-bind q f x y = record {
    at = λ p s l.
        let n = length p.toks in
        let r = Sound-drop_one st p p.toks refl s in
        if-elim (λ m. Ends st u 0 n (hlang.Run.◌>>=◌ m λ (a, q). f a q)) (at q 0 p) _ _
          (λ h.
            Ends-weaken st u 0 0 _ n (f true _) (omega (arith, r.0))
              (x.at _ r.1 (omega (arith, r.0, l))))
          (λ h. y.at p s l);
  }

  pub accept-bind_none :
      (q : Punct) (f : Bool → M B)
      → Within st u 0 zero (f false)
      → Within st u 0 zero (accept q >>= f)
  unfolding accept ◌>>=◌
  accept-bind_none q f y = record { at = λ p s l. rw (at-none q p l) (y.at p s l) }

pub ruleset within_rules = (
  Within-give, Within-get, Within-if, Within-on_option, Within-bind, take-Within, expect-Within,
  accept-Within, error-Within, error_here-Within,
)

module _ {A B : Type 0} {st : Parser} {u : Bool} {b : ℕ} where
  -- where the first part takes a token, or the last
  pub bind-eats_first :
      (m : M A) (f : A → M B)
      → Within st u 1 b m
      → ((a : A) → Within st u 0 b (f a))
      → Within st u 1 b (m >>= f)
  bind-eats_first m f x k = Within-then 1 0 m f x λ a. Within-le (omega arith) (k a)

  pub bind-eats_last :
      (m : M A) (f : A → M B)
      → Within st u 0 b m
      → ((a : A) → Within st u 1 b (f a))
      → Within st u 1 b (m >>= f)
  bind-eats_last m f x k = Within-then 0 1 m f x λ a. Within-le (omega arith) (k a)

  -- behind a part that takes a token the budget is one less
  pub bind-behind :
      (m : M A) (f : A → M B)
      → Within st u 1 (suc b) m
      → ((a : A) → Within st u 0 b (f a))
      → Within st u 0 (suc b) (m >>= f)
  bind-behind m f x k = Within-weaken (Within-then 1 0 m f x λ a. Within-le (omega arith) (k a))

pub ruleset eats_rules = (bind-eats_first, bind-eats_last, take-eats, expect-eats, within_rules)
