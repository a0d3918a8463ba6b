-- ===== src/Process/CommandLine/Reading.antt =====
-- The rules by which a C runtime is documented to read a command line: the program's name up to its
-- closing quote, then arguments that are separated by spaces and tabs. Before a quote two
-- backslashes stand for one, and one more makes the quote a character of the argument.
use tge_core.Prelude.{
  ℕ, suc, ◌+◌, ◌==◌, ◌≡◌, Bool, true, false, not, ◌&&◌, ◌||◌, List, [], ◌∷◌, ◌++◌, if◌then◌else◌,
  replicate,
}
use tge_core.Process.CommandLine.{backslash, quote}

abbrev pub is_blank : ℕ → Bool
is_blank c = (c == 32) || (c == 9)

abbrev pub is_even : ℕ → Bool
is_even ℕ.zero = true
is_even (suc n) = not (is_even n)

abbrev pub half : ℕ → ℕ
half ℕ.zero = 0
half (suc ℕ.zero) = 0
half (suc (suc n)) = suc (half n)

-- What was read, put before the rest of the argument.
abbrev pub before : List ℕ → List ℕ × List ℕ → List ℕ × List ℕ
before text r = (text ++ r.0, r.1)

-- The argument at the start of a text, and the text behind it. `quoted` tells whether a quote is
-- open, and `slashes` backslashes were read last.
unfoldable pub read_argument : Bool → ℕ → List ℕ → List ℕ × List ℕ
read_argument quoted slashes [] = (replicate slashes backslash, [])
read_argument quoted slashes (c ∷ cs) =
    if c == backslash
    then read_argument quoted (slashes + 1) cs
    else if c == quote
    then if is_even slashes
      then before (replicate (half slashes) backslash) (read_argument (not quoted) 0 cs)
      else before (replicate (half slashes) backslash ++ quote ∷ []) (read_argument quoted 0 cs)
    else if is_blank c && not quoted
    then (replicate slashes backslash, c ∷ cs)
    else before (replicate slashes backslash ++ c ∷ []) (read_argument quoted 0 cs)

-- The arguments of a text.
pub data Splits : List ℕ → List (List ℕ) → Type 0 where
  finished : Splits [] []
  skips :
      (c : ℕ) (cs : List ℕ) (arguments : List (List ℕ))
      → is_blank c ≡ true
      → Splits cs arguments
      → Splits (c ∷ cs) arguments
  reads :
      (c : ℕ) (cs argument rest : List ℕ) (arguments : List (List ℕ))
      → is_blank c ≡ false
      → read_argument false 0 (c ∷ cs) ≡ (argument, rest)
      → Splits rest arguments
      → Splits (c ∷ cs) (argument ∷ arguments)

-- The program's name, and the text behind its closing quote.
unfoldable pub read_name : List ℕ → List ℕ × List ℕ
read_name [] = ([], [])
read_name (c ∷ cs) = if c == quote then ([], cs) else before (c ∷ []) (read_name cs)

abbrev pub read_program : List ℕ → List ℕ × List ℕ
read_program [] = ([], [])
read_program (c ∷ cs) = read_name cs
