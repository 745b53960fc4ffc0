-- ===== src/Lexer/Conds.antt =====
-- src/lexer.cpp: the conditional inclusion stack.
pub mod Nesting
use hlang.Base.{
  Bool, true, false, ◌&&◌, not, List, [], ◌∷◌, if◌then◌else◌, all_of, Option, none, some,
}
use hlang.Lexer.{Cond}

-- `skippingConds`
unfoldable pub skipping : List Cond → Bool
skipping [] = false
skipping (c ∷ cs) = if c.active then skipping cs else true

-- what #ifdef and #ifndef push
unfoldable pub push_ifdef : Bool → List Cond → List Cond
unfolding skipping
push_ifdef val cs =
    record {
      active = if skipping cs then false else val;
      taken = if skipping cs then true else val;
      else_seen = false;
    }
    ∷ cs

-- What #if, #ifaot and #ifjit push: their value is false in a skipped region.
unfoldable pub push_if : Bool → List Cond → List Cond
unfolding skipping
push_if val cs =
    let v = if skipping cs then false else val in
    record { active = v; taken = v; else_seen = false } ∷ cs

-- `outerActive`
unfoldable pub outer_active : List Cond → Bool
outer_active = all_of (λ c. c.active)

-- What #else does to the innermost open #if, with whether it had an #else already.
unfoldable pub flip_else : List Cond → Option (Bool × List Cond)
unfolding outer_active
flip_else [] = none
flip_else (c ∷ cs) = some (
  c.else_seen,
  record { active = outer_active cs && not c.taken; taken = true; else_seen = true } ∷ cs,
)

-- what #endif does
unfoldable pub pop_cond : List Cond → Option (List Cond)
pop_cond [] = none
pop_cond (c ∷ cs) = some cs
