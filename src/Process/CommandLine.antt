-- ===== src/Process/CommandLine.antt =====
-- private/process/command_line.cpp: the one text from which a child process on Windows reads its
-- arguments. A character is the number of its code.
pub mod Reading
pub mod Quoting
pub mod RoundTrip
mod Tests
use tge_core.Prelude.{
  ℕ, suc, ◌+◌, ◌*◌, ◌==◌, Bool, true, false, not, ◌&&◌, ◌||◌, List, [], ◌∷◌, ◌++◌, if◌then◌else◌,
  any, replicate,
}

abbrev pub backslash : ℕ
backslash = 92

abbrev pub quote : ℕ
quote = 34

abbrev pub space : ℕ
space = 32

-- `CharactersToQuote`: a space, a tab, a line feed, a vertical tab, a quote.
abbrev pub characters_to_quote : List ℕ
characters_to_quote = 32 ∷ 9 ∷ 10 ∷ 11 ∷ 34 ∷ []

abbrev pub is_to_quote : ℕ → Bool
is_to_quote c = any (λ x. c == x) characters_to_quote

abbrev pub is_empty : List ℕ → Bool
is_empty [] = true
is_empty (c ∷ cs) = false

-- The loop over an argument, with the backslashes that are not written yet, and its end.
pub append_quoted : ℕ → List ℕ → List ℕ
append_quoted num_backslashes [] = replicate (num_backslashes * 2) backslash ++ quote ∷ []
append_quoted num_backslashes (character ∷ rest) =
    if character == backslash
    then append_quoted (num_backslashes + 1) rest
    else if character == quote
    then replicate (num_backslashes * 2 + 1) backslash ++ quote ∷ append_quoted 0 rest
    else replicate num_backslashes backslash ++ character ∷ append_quoted 0 rest

pub append_argument : List ℕ → List ℕ → List ℕ
unfolding append_quoted
append_argument command_line argument =
    if not (is_empty argument) && not (any is_to_quote argument)
    then command_line ++ argument
    else command_line ++ quote ∷ append_quoted 0 argument

pub append_arguments : List ℕ → List (List ℕ) → List ℕ
unfolding append_argument
append_arguments command_line [] = command_line
append_arguments command_line (argument ∷ arguments) =
    append_arguments (append_argument (command_line ++ space ∷ []) argument) arguments

pub build_command_line : List ℕ → List (List ℕ) → List ℕ
unfolding append_arguments
build_command_line program arguments = append_arguments ((quote ∷ program) ++ quote ∷ []) arguments
