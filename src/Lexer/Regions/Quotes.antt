-- ===== src/Lexer/Regions/Quotes.antt =====
-- Quotes in a skipped region.
use hlang.Base.{
  ℕ, zero, suc, ◌+◌, ◌<◌, ◌≡◌, refl, ◌∙◌, ◌++◌, [], ◌∷◌, Bytes, arith, length, ◌==◌, true, Bool,
  not, ◌||◌, all_of,
}
use hlang.Scan.{Pos, step_pos, advance}
use hlang.Lexer.Regions.{skip_region}

-- a byte that `skipCondBlockLine` has no case for
abbrev pub is_plain : ℕ → Bool
is_plain c = not (c == b'#' || c == b'/' || c == b'"' || c == b'\'' || c == b'\n')

-- a double quote is passed like a byte that there is no case for
skip_region-quote :
    (n : ℕ) (cs : Bytes) (p : Pos)
    → skip_region (suc n) (b'"' ∷ cs) p ≡ skip_region n cs (step_pos b'"' p)
unfolding skip_region
skip_region-quote n [] p = refl
skip_region-quote n (c ∷ cs) p = refl

skip_region-plain :
    (n c : ℕ) (cs : Bytes) (p : Pos)
    → is_plain c ≡ true
    → skip_region (suc n) (c ∷ cs) p ≡ skip_region n cs (step_pos c p)
unfolding skip_region
skip_region-plain n c cs p h = ground arith

skip_region-run :
    (text rest : Bytes) (n : ℕ) (p : Pos)
    → all_of is_plain text ≡ true
    → length text < n
    → skip_region n (text ++ b'#' ∷ rest) p ≡ ([], (b'#' ∷ rest, advance text p))
unfolding advance
skip_region-run [] rest zero p h lt = absurd (omega arith)
skip_region-run [] rest (suc n) p h lt = unfold skip_region in refl
skip_region-run (c ∷ cs) rest zero p h lt = absurd (omega arith)
skip_region-run (c ∷ cs) rest (suc n) p h lt =
    skip_region-plain n c (cs ++ b'#' ∷ rest) p (ground arith)
    ∙ skip_region-run cs rest n (step_pos c p) (ground arith) (omega arith)

-- In a skipped region, behind the opening quote of a string literal and any plain bytes, a `#` is
-- found as the start of a directive: the loop stops at it, without a fault.
pub skip_region-quoted_hash :
    (text rest : Bytes) (n : ℕ) (p : Pos)
    → all_of is_plain text ≡ true
    → length text + 1 < n
    → skip_region n (b'"' ∷ (text ++ b'#' ∷ rest)) p ≡ ([], (b'#' ∷ rest, advance (b'"' ∷ text) p))
unfolding advance
skip_region-quoted_hash text rest zero p h lt = absurd (omega arith)
skip_region-quoted_hash text rest (suc n) p h lt =
    skip_region-quote n (text ++ b'#' ∷ rest) p
    ∙ skip_region-run text rest n (step_pos b'"' p) h (omega arith)
