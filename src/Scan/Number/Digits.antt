-- ===== src/Scan/Number/Digits.antt =====
-- src/lexer.cpp: digits as `lexNumber` collects them, and their value.
use hlang.Base.{
  ℕ, ◌+◌, ◌-◌, ◌*◌, ◌^◌, ◌<◌, ◌≡◌, refl, Bool, true, false, ◌&&◌, [], ◌∷◌, ◌++◌, Bytes, arith, min,
  select, all_of,
}
use hlang.Scan.{Pos, step_pos, advance, at_test, take_while}
use hlang.Scan.Literal.{hex_value}
use hlang.Scan.Number.{digits_value}

pub digits_value-append :
    (b acc : ℕ) (xs ys : Bytes)
    → digits_value b acc (xs ++ ys) ≡ digits_value b (digits_value b acc xs) ys
unfolding digits_value
digits_value-append b acc [] ys = refl
digits_value-append b acc (x ∷ xs) ys = digits_value-append b (acc * b + hex_value x) xs ys

pub all_of-append :
    (f : ℕ → Bool) (xs ys : Bytes) → all_of f (xs ++ ys) ≡ (all_of f xs && all_of f ys)
all_of-append f [] ys = refl
all_of-append f (x ∷ xs) ys = ground (arith, all_of-append f xs ys)

-- what passes the test is taken, up to what does not
pub take_while-append :
    (f : ℕ → Bool) (xs rest : Bytes) (p : Pos)
    → all_of f xs ≡ true
    → at_test 0 f rest ≡ false
    → take_while f (xs ++ rest) p ≡ (xs, (rest, advance xs p))
unfolding take_while advance
take_while-append f [] [] p h e = refl
take_while-append f [] (c ∷ cs) p h e = ground (arith, e)
take_while-append f (x ∷ xs) rest p h e =
    ground (arith, h, take_while-append f xs rest (step_pos x p) (ground (arith, h)) e)

pub select-all : (f : ℕ → Bool) (xs : Bytes) → all_of f xs ≡ true → select f xs ≡ xs
select-all f [] h = refl
select-all f (x ∷ xs) h = ground (arith, h, select-all f xs (ground (arith, h)))

pub all_of-weaken :
    (f g : ℕ → Bool) (xs : Bytes)
    → ((c : ℕ) → f c ≡ true → g c ≡ true)
    → all_of f xs ≡ true
    → all_of g xs ≡ true
all_of-weaken f g [] w h = refl
all_of-weaken f g (x ∷ xs) w h =
    ground (arith, h, w x (ground (arith, h)), all_of-weaken f g xs w (ground (arith, h)))

pub min_left : (n : ℕ) → n < 2 ^ 64 → min n (2 ^ 64 - 1) ≡ n
min_left n h = omega (arith, h)
