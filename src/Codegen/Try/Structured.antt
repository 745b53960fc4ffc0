-- ===== src/Codegen/Try/Structured.antt =====
-- Structured exceptions: what `try`, `catch` and `throw` promise of a task, with no frames.
use hlang.Base.{ℕ, zero, suc, true, false, if◌then◌else◌}
use hlang.Base.Int.{pos, eq_ℤ}
use hlang.Runtime.Exceptions.{Task}
use hlang.Codegen.Try.{Code, act, raise, return, seq, branch, repeat, try_catch}

pub data Effect : Type 0 where
  finishes : Task → Effect
  raises : Task → Effect
  returns : Task → Effect

abbrev pub then_do : Effect → (Task → Effect) → Effect
then_do (finishes t) k = k t
then_do (raises t) k = raises t
then_do (returns t) k = returns t

abbrev pub times_do : ℕ → (Task → Effect) → Task → Effect
times_do zero k t = finishes t
times_do (suc n) k t = then_do (k t) λ t'. times_do n k t'

abbrev pub cleared : Task → Task
cleared t = record t { catch_except = pos 0 }

module _ (site : ℕ) where
  -- behind a handler the exception goes on, unless the handler has asked to end the search
  abbrev pub rethrown : Task → Effect
  rethrown t =
      if eq_ℤ t.catch_except (pos 0)
      then raises (record t { caller = site })
      else finishes (cleared t)

  abbrev pub handled : (Task → Effect) → Effect → Effect
  handled handler (finishes t) = finishes t
  handled handler (raises t) = then_do (handler (cleared t)) rethrown
  handled handler (returns t) = returns t

  unfoldable pub denote : Code → Task → Effect
  denote (act f) t = finishes (f t)
  denote (raise from ch) t = raises (record t { except_ch = ch; caller = from })
  denote return t = returns t
  denote (seq a b) t = then_do (denote a t) λ t'. denote b t'
  denote (branch test a b) t = elim (test t) [ true ↦ denote a t | false ↦ denote b t ]
  denote (repeat n c) t = times_do n (λ t'. denote c t') t
  denote (try_catch f body handler) t = handled (λ t'. denote handler t') (denote body t)
