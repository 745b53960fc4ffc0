-- ===== src/Lexer/CondEval/Places.antt =====
-- Where each operator stands among the tiers of `CondEval`.
use hlang.Base.{◌≡◌, refl, ap, ◌∙◌, Bool, List, ◌∷◌, ◌++◌, Option, none, some, take, drop}
use hlang.Base.Int.{and64, or64, xor64}
use hlang.Run.{◌>>=◌}
use hlang.Token.{Token, SrcLoc, r_paren, amp, caret, pipe, and_and, xor_xor, or_or}
use hlang.Lexer.CondEval.{Eval, tier, stacked}
use hlang.Lexer.CondOps.{
  Apply, total, test, both, either, one_of, shift_ops, mul_ops, single_op, add_ops, rel_ops, eq_ops,
  tiers,
}
use hlang.Lexer.CondEval.Tiers.{
  Answer, before, AllQuiet, stacked-quiet, stacked-append, apply, tier-operator,
}
use hlang.Lexer.CondEval.Parenthesised.{
  Op, left, right, power_of, times, over, rest_of, band, bxor, bor, add, sub, less, greater,
  at_most, at_least, same, differ, conj, xdisj, disj, op_punct, op_meaning, symbol,
}

-- The tier of an operator, and those below and above it; below it no tier knows the operator, and no
-- tier knows a closing parenthesis.
record Place (l : SrcLoc) (o : Op) : Type 0 where
  below : List (Token → Option Apply)
  ops : Token → Option Apply
  above : List (Token → Option Apply)
  split : tiers ≡ below ++ ops ∷ above
  below_op : AllQuiet below (symbol l (op_punct o))
  finds : ops (symbol l (op_punct o)) ≡ some (op_meaning o)
  below_end : AllQuiet below (symbol l r_paren)
  quiet : ops (symbol l r_paren) ≡ none
  above_end : AllQuiet above (symbol l r_paren)

module _ (l : SrcLoc) where
  place : (o : Op) → Place l o
  unfolding tiers
  place left = record {
    below = take 0 tiers;
    ops = shift_ops;
    above = drop 1 tiers;
    split = refl;
    below_op = tt;
    finds = refl;
    below_end = tt;
    quiet = refl;
    above_end = (refl, (refl, (refl, (refl, (refl, (refl, (refl, (refl, (refl, (refl, tt))))))))));
  }
  place right = record {
    below = take 0 tiers;
    ops = shift_ops;
    above = drop 1 tiers;
    split = refl;
    below_op = tt;
    finds = refl;
    below_end = tt;
    quiet = refl;
    above_end = (refl, (refl, (refl, (refl, (refl, (refl, (refl, (refl, (refl, (refl, tt))))))))));
  }
  place power_of = record {
    below = take 0 tiers;
    ops = shift_ops;
    above = drop 1 tiers;
    split = refl;
    below_op = tt;
    finds = refl;
    below_end = tt;
    quiet = refl;
    above_end = (refl, (refl, (refl, (refl, (refl, (refl, (refl, (refl, (refl, (refl, tt))))))))));
  }
  place times = record {
    below = take 1 tiers;
    ops = mul_ops;
    above = drop 2 tiers;
    split = refl;
    below_op = (refl, tt);
    finds = refl;
    below_end = (refl, tt);
    quiet = refl;
    above_end = (refl, (refl, (refl, (refl, (refl, (refl, (refl, (refl, (refl, tt)))))))));
  }
  place over = record {
    below = take 1 tiers;
    ops = mul_ops;
    above = drop 2 tiers;
    split = refl;
    below_op = (refl, tt);
    finds = refl;
    below_end = (refl, tt);
    quiet = refl;
    above_end = (refl, (refl, (refl, (refl, (refl, (refl, (refl, (refl, (refl, tt)))))))));
  }
  place rest_of = record {
    below = take 1 tiers;
    ops = mul_ops;
    above = drop 2 tiers;
    split = refl;
    below_op = (refl, tt);
    finds = refl;
    below_end = (refl, tt);
    quiet = refl;
    above_end = (refl, (refl, (refl, (refl, (refl, (refl, (refl, (refl, (refl, tt)))))))));
  }
  place band = record {
    below = take 2 tiers;
    ops = single_op amp (total and64);
    above = drop 3 tiers;
    split = refl;
    below_op = (refl, (refl, tt));
    finds = refl;
    below_end = (refl, (refl, tt));
    quiet = refl;
    above_end = (refl, (refl, (refl, (refl, (refl, (refl, (refl, (refl, tt))))))));
  }
  place bxor = record {
    below = take 3 tiers;
    ops = single_op caret (total xor64);
    above = drop 4 tiers;
    split = refl;
    below_op = (refl, (refl, (refl, tt)));
    finds = refl;
    below_end = (refl, (refl, (refl, tt)));
    quiet = refl;
    above_end = (refl, (refl, (refl, (refl, (refl, (refl, (refl, tt)))))));
  }
  place bor = record {
    below = take 4 tiers;
    ops = single_op pipe (total or64);
    above = drop 5 tiers;
    split = refl;
    below_op = (refl, (refl, (refl, (refl, tt))));
    finds = refl;
    below_end = (refl, (refl, (refl, (refl, tt))));
    quiet = refl;
    above_end = (refl, (refl, (refl, (refl, (refl, (refl, tt))))));
  }
  place add = record {
    below = take 5 tiers;
    ops = add_ops;
    above = drop 6 tiers;
    split = refl;
    below_op = (refl, (refl, (refl, (refl, (refl, tt)))));
    finds = refl;
    below_end = (refl, (refl, (refl, (refl, (refl, tt)))));
    quiet = refl;
    above_end = (refl, (refl, (refl, (refl, (refl, tt)))));
  }
  place sub = record {
    below = take 5 tiers;
    ops = add_ops;
    above = drop 6 tiers;
    split = refl;
    below_op = (refl, (refl, (refl, (refl, (refl, tt)))));
    finds = refl;
    below_end = (refl, (refl, (refl, (refl, (refl, tt)))));
    quiet = refl;
    above_end = (refl, (refl, (refl, (refl, (refl, tt)))));
  }
  place less = record {
    below = take 6 tiers;
    ops = rel_ops;
    above = drop 7 tiers;
    split = refl;
    below_op = (refl, (refl, (refl, (refl, (refl, (refl, tt))))));
    finds = refl;
    below_end = (refl, (refl, (refl, (refl, (refl, (refl, tt))))));
    quiet = refl;
    above_end = (refl, (refl, (refl, (refl, tt))));
  }
  place greater = record {
    below = take 6 tiers;
    ops = rel_ops;
    above = drop 7 tiers;
    split = refl;
    below_op = (refl, (refl, (refl, (refl, (refl, (refl, tt))))));
    finds = refl;
    below_end = (refl, (refl, (refl, (refl, (refl, (refl, tt))))));
    quiet = refl;
    above_end = (refl, (refl, (refl, (refl, tt))));
  }
  place at_most = record {
    below = take 6 tiers;
    ops = rel_ops;
    above = drop 7 tiers;
    split = refl;
    below_op = (refl, (refl, (refl, (refl, (refl, (refl, tt))))));
    finds = refl;
    below_end = (refl, (refl, (refl, (refl, (refl, (refl, tt))))));
    quiet = refl;
    above_end = (refl, (refl, (refl, (refl, tt))));
  }
  place at_least = record {
    below = take 6 tiers;
    ops = rel_ops;
    above = drop 7 tiers;
    split = refl;
    below_op = (refl, (refl, (refl, (refl, (refl, (refl, tt))))));
    finds = refl;
    below_end = (refl, (refl, (refl, (refl, (refl, (refl, tt))))));
    quiet = refl;
    above_end = (refl, (refl, (refl, (refl, tt))));
  }
  place same = record {
    below = take 7 tiers;
    ops = eq_ops;
    above = drop 8 tiers;
    split = refl;
    below_op = (refl, (refl, (refl, (refl, (refl, (refl, (refl, tt)))))));
    finds = refl;
    below_end = (refl, (refl, (refl, (refl, (refl, (refl, (refl, tt)))))));
    quiet = refl;
    above_end = (refl, (refl, (refl, tt)));
  }
  place differ = record {
    below = take 7 tiers;
    ops = eq_ops;
    above = drop 8 tiers;
    split = refl;
    below_op = (refl, (refl, (refl, (refl, (refl, (refl, (refl, tt)))))));
    finds = refl;
    below_end = (refl, (refl, (refl, (refl, (refl, (refl, (refl, tt)))))));
    quiet = refl;
    above_end = (refl, (refl, (refl, tt)));
  }
  place conj = record {
    below = take 8 tiers;
    ops = single_op and_and (test both);
    above = drop 9 tiers;
    split = refl;
    below_op = (refl, (refl, (refl, (refl, (refl, (refl, (refl, (refl, tt))))))));
    finds = refl;
    below_end = (refl, (refl, (refl, (refl, (refl, (refl, (refl, (refl, tt))))))));
    quiet = refl;
    above_end = (refl, (refl, tt));
  }
  place xdisj = record {
    below = take 9 tiers;
    ops = single_op xor_xor (test one_of);
    above = drop 10 tiers;
    split = refl;
    below_op = (refl, (refl, (refl, (refl, (refl, (refl, (refl, (refl, (refl, tt)))))))));
    finds = refl;
    below_end = (refl, (refl, (refl, (refl, (refl, (refl, (refl, (refl, (refl, tt)))))))));
    quiet = refl;
    above_end = (refl, tt);
  }
  place disj = record {
    below = take 10 tiers;
    ops = single_op or_or (test either);
    above = drop 11 tiers;
    split = refl;
    below_op = (refl, (refl, (refl, (refl, (refl, (refl, (refl, (refl, (refl, (refl, tt))))))))));
    finds = refl;
    below_end = (refl, (refl, (refl, (refl, (refl, (refl, (refl, (refl, (refl, (refl, tt))))))))));
    quiet = refl;
    above_end = tt;
  }

  -- Two operands joined by an operator, before a closing parenthesis: all tiers together give what
  -- the operator makes of the operands' answers, whatever its precedence.
  pub stacked-operator :
      (o : Op) (operand : Eval) (ts us r : List Token) (e : Bool) (a b : Answer)
      → operand ts e ≡ (a >>= before (symbol l (op_punct o) ∷ us) e)
      → ((e' : Bool) → operand us e' ≡ (b >>= before (symbol l r_paren ∷ r) e'))
      → stacked tiers operand ts e ≡ (apply (op_meaning o) a b >>= before (symbol l r_paren ∷ r) e)
  stacked-operator o operand ts us r e a b ha hb =
      let w = place o in
      let low = stacked w.below operand in
      let first = stacked-quiet w.below operand ts e a (symbol l (op_punct o)) us w.below_op ha in
      let second = λ (e' : Bool).
        stacked-quiet w.below operand us e' b (symbol l r_paren) r w.below_end (hb e') in
      let joined =
        tier-operator w.ops (op_meaning o) low ts us e a b (symbol l (op_punct o))
          (symbol l r_paren) r w.finds w.quiet first second in
      ap (λ list. stacked list operand ts e) w.split
      ∙ ap (λ (g : Eval). g ts e) (stacked-append w.below (w.ops ∷ w.above) operand)
      ∙ unfold stacked in
        stacked-quiet w.above (tier w.ops low) ts e (apply (op_meaning o) a b) (symbol l r_paren) r
          w.above_end joined
