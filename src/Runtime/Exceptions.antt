-- ===== src/Runtime/Exceptions.antt =====
-- runtime/hcrt.c, runtime/hcrt.h: the task and the frames of `try`. A frame is an address, and what
-- `prev` holds at each address is part of the state.
use hlang.Base.{
  ℕ, zero, suc, ◌/◌, ◌%◌, [], ◌∷◌, ◌++◌, Bytes, Option, none, some, codes, if◌then◌else◌, ◌==◌,
}
use hlang.Base.Int.{ℤ, pos, eq_ℤ, pattern64}

-- `HCTask`, with the first of the callers
pub record Task : Type 0 where
  pub except_ch : ℤ
  pub catch_except : ℤ
  pub caller : ℕ

-- The task that `HC_Fs` points to, `hc_try_top`, the field `prev` of each frame, and what is printed.
pub record Machine : Type 0 where
  pub task : Task
  pub top : Option ℕ
  pub prev : ℕ → Option ℕ
  pub printed : Bytes

-- How a call comes back: it returns, it jumps to a frame by `longjmp`, or the process exits with a
-- message and status 1.
pub data Outcome : Type 0 where
  normal : Machine → Outcome
  jumped : ℕ → Machine → Outcome
  left : Machine → Outcome
  exited : Bytes → Machine → Outcome

-- a write through a pointer to a frame
abbrev pub store_prev : (ℕ → Option ℕ) → ℕ → Option ℕ → ℕ → Option ℕ
store_prev prev f v g = if g == f then v else prev g

-- `HC_TryPush`
unfoldable pub try_push : ℕ → Machine → Machine
try_push f m = record m { prev = store_prev m.prev f m.top; top = some f }

-- `HC_TryPop`
unfoldable pub try_pop : Machine → Machine
try_pop m = elim m.top [ none ↦ m | some f ↦ record m { top = m.prev f } ]

-- The bytes of a number from the lowest on, as far as a C string of them goes.
unfoldable pub char_bytes : ℕ → ℕ → Bytes
char_bytes zero w = []
char_bytes (suc n) w =
    let more = char_bytes n (w / 256) in if w % 256 == 0 then [] else (w % 256) ∷ more

-- `pretty`, of nine bytes of which the last is 0
unfoldable pub pretty : ℤ → Bytes
unfolding char_bytes pattern64
pretty ch = char_bytes 8 (pattern64 ch)

-- `HC_Throw`, called from `site`
unfoldable pub throw : ℕ → ℤ → Machine → Outcome
unfolding pretty
throw site ch m =
    let t : Task = record m.task { except_ch = ch; caller = site } in
    elim m.top [
      | none ↦
          exited (codes "Unhandled exception:'" ++ pretty ch ++ codes "'\n") (record m { task = t })
      | some f ↦ jumped f (record m { task = t; top = m.prev f })
    ]

-- `HC_CatchEnter`
unfoldable pub catch_enter : Machine → Machine
catch_enter m = record m { task = record m.task { catch_except = pos 0 } }

-- `HC_CatchDone`, in which `HC_Throw` is called from `site`
unfoldable pub catch_done : ℕ → Machine → Outcome
unfolding throw catch_enter
catch_done site m =
    if eq_ℤ m.task.catch_except (pos 0)
    then throw site m.task.except_ch m
    else normal (catch_enter m)

-- `HC_PutExcept`, over the conversion of `%016llX`
unfoldable pub put_except : (ℕ → Bytes) → ℤ → Machine → Machine
unfolding pretty
put_except hex16 catch_it m =
    let t : Task =
      if eq_ℤ catch_it (pos 0) then m.task else record m.task { catch_except = pos 1 } in
    record m {
      task = t;
      printed =
          m.printed
          ++ codes "Except:'"
          ++ pretty m.task.except_ch
          ++ codes "' at "
          ++ hex16 m.task.caller
          ++ codes "\n";
    }
