-- ===== src/Scan.antt =====
-- src/lexer.cpp: the character level of the lexer. The unread bytes of the source on top of the
-- stack are a list, and `Pos` is its line and column. A C `int` that is -1 at the end is an `Option`.
pub mod Progress
pub mod Consumption
pub mod Literal
pub mod Number
pub mod Symbol
pub mod Lexeme
use hlang.Base.{
  ℕ, zero, suc, ◌+◌, Bool, true, false, ◌&&◌, ◌||◌, not, List, [], ◌∷◌, ◌==◌, if◌then◌else◌, Bytes,
  Option, none, some, get_elem?, drop, isalnum,
}

pub record Pos : Type 0 where
  pub line : ℕ
  pub col : ℕ

-- what `getc` does to the position at one byte
unfoldable pub step_pos : ℕ → Pos → Pos
step_pos c p =
    if c == b'\n' then record { line = p.line + 1; col = 1 } else record p { col = p.col + 1 }

-- the position behind some bytes
unfoldable pub advance : Bytes → Pos → Pos
unfolding step_pos
advance [] p = p
advance (c ∷ cs) p = advance cs (step_pos c p)

-- the unread bytes, and where they start
abbrev pub Input : Type 0
Input = Bytes × Pos

-- `getc`
unfoldable pub getc : Input → Option ℕ × Input
unfolding step_pos
getc ([], p) = (none, ([], p))
getc (c ∷ cs, p) = (some c, (cs, step_pos c p))

-- `peekc(off)`
abbrev pub peekc : ℕ → Bytes → Option ℕ
peekc off cs = get_elem? cs off

-- `peekc(off) == c`, and a test of `peekc(off)` that fails at the end
abbrev pub at_is : ℕ → ℕ → Bytes → Bool
at_is off c cs = elim (peekc off cs) [ none ↦ false | some d ↦ d == c ]

abbrev pub at_test : ℕ → (ℕ → Bool) → Bytes → Bool
at_test off f cs = elim (peekc off cs) [ none ↦ false | some d ↦ f d ]

-- `getc()` some times
unfoldable pub skip_bytes : ℕ → Input → Input
unfolding getc
skip_bytes zero s = s
skip_bytes (suc n) s = skip_bytes n (getc s).1

-- `while (f(peekc())) text.push_back(getc());`
unfoldable pub take_while : (ℕ → Bool) → Bytes → Pos → Bytes × Input
unfolding step_pos
take_while f [] p = ([], ([], p))
take_while f (c ∷ cs) p =
    let rest = take_while f cs (step_pos c p) in
    if f c then (c ∷ rest.0, rest.1) else ([], (c ∷ cs, p))

-- `while (peekc() != -1 && peekc() != '\n') getc();`
unfoldable pub skip_line : Bytes → Pos → Input
unfolding take_while
skip_line cs p = (take_while (λ c. not (c == b'\n')) cs p).1

-- The body of a block comment, behind its opening. The flag says that the closing was found.
unfoldable pub block_comment : Bytes → Pos → Bool × Input
unfolding step_pos
block_comment [] p = (false, ([], p))
block_comment (c ∷ cs) p =
    let rest = block_comment cs (step_pos c p) in
    if c == b'*' && at_is 0 b'/' cs then (true, (drop 1 cs, step_pos b'/' (step_pos c p))) else rest

-- what `lexer.cpp` calls white space between tokens
abbrev pub is_space : ℕ → Bool
is_space c = c == b' ' || c == b'\t' || c == b'\r' || c == b'\n' || c == 12 || c == 11

abbrev pub is_blank : ℕ → Bool
is_blank c = c == b' ' || c == b'\t' || c == b'\r'

-- a byte of an identifier behind its first
unfoldable pub is_word : ℕ → Bool
unfolding isalnum
is_word c = isalnum c || c == b'_'
