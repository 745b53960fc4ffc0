-- ===== src/Codegen/Try.antt =====
-- src/codegen.cpp: what the code does that `genTry` emits, with the calls of the runtime. The other
-- statements are those that matter to it: code that works on `Fs`, `throw`, `return`, sequences,
-- branches and loops.
pub mod Structured
pub mod Refinement
pub mod Frames
use hlang.Base.{ℕ, zero, suc, Bool, true, false, ◌||◌, ◌&&◌, not, if◌then◌else◌, ◌==◌}
use hlang.Base.Int.{ℤ}
use hlang.Runtime.Exceptions.{
  Task, Machine, Outcome, normal, jumped, left, exited, try_push, try_pop, throw, catch_enter,
  catch_done,
}

-- The frame of a `try` is an `alloca` of its function.
pub data Code : Type 0 where
  act : (Task → Task) → Code
  raise : ℕ → ℤ → Code
  return : Code
  seq : Code → Code → Code
  branch : (Task → Bool) → Code → Code → Code
  repeat : ℕ → Code → Code
  try_catch : ℕ → Code → Code → Code

-- one piece of code after another: only where the first comes to its end
abbrev pub then_run : Outcome → (Machine → Outcome) → Outcome
then_run (normal m) k = k m
then_run (jumped g m) k = jumped g m
then_run (left m) k = left m
then_run (exited s m) k = exited s m

abbrev pub times : ℕ → (Machine → Outcome) → Machine → Outcome
times zero k m = normal m
times (suc n) k m = then_run (k m) λ m'. times n k m'

module _ (site : ℕ) where
  -- The block `try.body` ends in `HC_TryPop`, and `setjmp` returns again with 1 where the frame is
  -- jumped to: then the block `catch.body` runs. A `return` has ended the function before either.
  unfoldable pub after_body : ℕ → (Machine → Outcome) → Outcome → Outcome
  unfolding try_pop catch_enter catch_done
  after_body f handler (normal m) = normal (try_pop m)
  after_body f handler (jumped g m) =
      let caught = then_run (handler (catch_enter m)) (catch_done site) in
      if g == f then caught else jumped g m
  after_body f handler (left m) = left m
  after_body f handler (exited s m) = exited s m

  unfoldable pub run : Code → Machine → Outcome
  unfolding throw try_push after_body
  run (act f) m = normal (record m { task = f m.task })
  run (raise from ch) m = throw from ch m
  run return m = left m
  run (seq a b) m = then_run (run a m) λ m'. run b m'
  run (branch test a b) m = elim (test m.task) [ true ↦ run a m | false ↦ run b m ]
  run (repeat n c) m = times n (λ m'. run c m') m
  run (try_catch f body handler) m = after_body f (λ m'. run handler m') (run body (try_push f m))

-- a frame is that of a `try` within
unfoldable pub mentions : ℕ → Code → Bool
mentions g (seq a b) = mentions g a || mentions g b
mentions g (branch test a b) = mentions g a || mentions g b
mentions g (repeat n c) = mentions g c
mentions g (try_catch f body handler) = g == f || (mentions g body || mentions g handler)
mentions g _ = false

-- there is a `return` within
unfoldable pub returning : Code → Bool
returning return = true
returning (seq a b) = returning a || returning b
returning (branch test a b) = returning a || returning b
returning (repeat n c) = returning c
returning (try_catch f body handler) = returning body || returning handler
returning _ = false

-- No `try` has its own frame in its body again, nor a `return` in its body.
unfoldable pub tidy : Code → Bool
unfolding mentions returning
tidy (seq a b) = tidy a && tidy b
tidy (branch test a b) = tidy a && tidy b
tidy (repeat n c) = tidy c
tidy (try_catch f body handler) =
    not (mentions f body) && (not (returning body) && (tidy body && tidy handler))
tidy _ = true
