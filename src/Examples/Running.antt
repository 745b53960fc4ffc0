-- ===== src/Examples/Running.antt =====
-- Concrete runs of the code of `try` and of the runtime.
use hlang.Base.{◌≡◌, refl, none, some, arith, []}
use hlang.Base.Int.{pos}
use hlang.Runtime.Exceptions.{Task, Machine, left}
use hlang.Codegen.Try.{Code, act, raise, return, seq, repeat, try_catch, run, mentions, tidy}
use hlang.Codegen.Try.Structured.{denote}
use hlang.Codegen.Try.Refinement.{Follows}
use hlang.Codegen.Try.Frames.{run-Follows, return-leaks}

abbrev fresh : Machine
fresh = record {
  task = record { except_ch = pos 0; catch_except = pos 0; caller = 0 };
  top = none;
  prev = λ g. none;
  printed = [];
}

abbrev accept : Task → Task
accept t = record t { catch_except = pos 1 }

-- a `try` whose handler lets the exception go on, in one whose handler accepts it
abbrev nested : Code
nested = repeat 2 (
    try_catch 3 (seq (try_catch 5 (raise 100 (pos 65)) (act λ t. t)) (raise 200 (pos 66)))
      (act accept))

abbrev abandoned : Code
abandoned = seq (act accept) return

run-Follows_example :
    Follows (λ g. mentions g nested) fresh (denote 9 nested fresh.task) (run 9 nested fresh)
unfolding tidy
run-Follows_example = run-Follows 9 nested fresh refl (λ g x. grind arith)

return-leaks_example :
    ((n : Machine) × (run 9 (try_catch 3 abandoned nested) fresh ≡ left n)
      × (n.top ≡ some 3)
      × (n.prev 3 ≡ none))
unfolding tidy denote
return-leaks_example = return-leaks 9 3 abandoned nested fresh (accept fresh.task) refl refl refl
