-- ===== src/Runtime/Format/Total.antt =====
-- runtime/hcrt.c: `hc_format` writes a format that is well formed to its end.
use hlang.Base.{
  ℕ, ◌^◌, ◌≡◌, Bool, true, false, not, List, [], ◌∷◌, Option, none, some, Bytes, ◌==◌, all_of,
}
use hlang.Run.{Run, ok, undefined, out_of_fuel}
use hlang.Runtime.Output.{HcOut}
use hlang.Runtime.Output.Fields.{Wrote}
use hlang.Runtime.Format.{next_arg}

-- no argument is the least `int64_t`
abbrev pub in_bounds : List ℕ → Bool
in_bounds = all_of (λ a. not (a == 2 ^ 63))

-- Some text is written behind what was there, and no argument that is left is the least `int64_t`.
abbrev Done : HcOut → Run (HcOut × List ℕ) → Type 0
Done o (ok (o', left)) = ((s : Bytes) × Wrote o s o') × (in_bounds left ≡ true)
Done o undefined = ⊥
Done o out_of_fuel = ⊥

-- a field that is written takes one argument
abbrev Kept : List ℕ → Option (Option Bytes × List ℕ) → Type 0
Kept args none = Unit {0}
Kept args (some (none, left)) = ⊥
Kept args (some (some s, left)) = left ≡ (next_arg args).1

-- A run ends with an output that has some text behind what was there.
abbrev pub Written : HcOut → Run HcOut → Type 0
Written o r = (o' : HcOut) × (s : Bytes) × (r ≡ ok o') × Wrote o s o'

-- a directive does not begin like a doubled percent sign
abbrev starts : Bytes → Bool
starts [] = false
starts (c ∷ cs) = not (c == b'%')

record IsKept (args : List ℕ) (o : Option (Option Bytes × List ℕ)) : Type 0 where
  kept : Kept args o
