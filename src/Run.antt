-- ===== src/Run.antt =====
-- The outcome of a step of the program: a value, undefined behaviour of C++ (arithmetic overflow, a
-- shift count out of range), or no outcome within the fuel given.

pub data Run {ℓ} (A : Type ℓ) : Type ℓ where
  ok : A → Run A
  undefined : Run A
  out_of_fuel : Run A

infixl 5 ◌>>=◌
abbrev pub ◌>>=◌ {ℓ κ} : {A : Type ℓ} {B : Type κ} → Run A → (A → Run B) → Run B
ok a >>= f = f a
undefined >>= f = undefined
out_of_fuel >>= f = out_of_fuel
