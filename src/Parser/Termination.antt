-- ===== src/Parser/Termination.antt =====
-- src/parser.cpp: an expression, a statement, and a function or some variables are parsed to an end,
-- with fuel for the tokens and for the chain of base classes.
use hlang.Base.{ℕ, ◌+◌, ◌-◌, ◌≤◌, ◌<◌, ◌≡◌, refl, true, false, arith, length, not, all_of, ◌⊎◌}
use hlang.Run.{Run, ok, undefined, out_of_fuel}
use hlang.Token.{Token, eof, ◌=tok◌}
use hlang.Ast.Members.{IsRanked, find_member_total}
use hlang.Parser.{Parser}
use hlang.Parser.Budget.{Ends}
use hlang.Parser.Sound.{Extends, same, Sound}
use hlang.Parser.Expression.{parse_assign}
use hlang.Parser.Expression.Budget.{Finds, parse_assign-Within}

-- The run gives a value and a parser with at least `e` tokens fewer than the first had, with the same
-- classes and names of classes, and with all reports of the first.
abbrev pub Results {ℓ} : {A : Type ℓ} → ℕ → Parser → Run (A × Parser) → Type ℓ
Results {A = A} e p r =
    (o : A × Parser) × (r ≡ ok o)
    × (length o.1.toks ≤ length p.toks - e)
    × (o.1.store ≡ p.store)
    × (o.1.classes ≡ p.classes)
    × Extends p.log o.1.log

-- The same, or an operation that C++ leaves undefined.
abbrev pub Halts {ℓ} : {A : Type ℓ} → ℕ → Parser → Run (A × Parser) → Type ℓ
Halts e p r = Results e p r ⊎ (r ≡ undefined)

module _ {ℓ} {A : Type ℓ} (p : Parser) (e : ℕ) where
  Ends-Results : (r : Run (A × Parser)) → Ends p false e (length p.toks) r → Results e p r
  Ends-Results (ok o) x = (o, refl, x.0, x.1.store, x.1.classes, x.1.log)
  Ends-Results undefined x = absurd (ground (arith, x))
  Ends-Results out_of_fuel x = absurd x

module _ (rank : ℕ → ℕ) (d : ℕ) where
  IsRanked-Finds : (st : Parser) → IsRanked rank st.store → ((k : ℕ) → rank k < d) → Finds st d
  IsRanked-Finds st r below f k n le =
      find_member_total rank st.store n r f k (omega (arith, le, below k))

  module _ (p : Parser) (r : IsRanked rank p.store) (below : (k : ℕ) → rank k < d)
      (e : all_of (λ (t : Token). not (t.kind =tok eof)) p.toks ≡ true) where
    here : Sound p p
    here = record { store = refl; classes = refl; log = same; tokens = e }

    finds : Finds p d
    finds = IsRanked-Finds p r below

    -- parseAssign, with fuel for the tokens that are left and for a chain of base classes with no
    -- cycle, gives an expression, takes no token that is not there, and keeps the classes and the
    -- reports that were made: whatever the tokens, none of which is the end of the file.
    pub parse_assign_total : (f : ℕ) → length p.toks + d < f → Results 0 p (parse_assign f p)
    parse_assign_total f lt =
        Ends-Results p 0 _
          ((parse_assign-Within {u = false} f (length p.toks) finds lt).at p here (omega arith))
