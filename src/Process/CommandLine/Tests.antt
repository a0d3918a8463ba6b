-- ===== src/Process/CommandLine/Tests.antt =====
-- Command lines with quotes, blanks and backslashes.
use tge_core.Prelude.{ℕ, ◌≡◌, ◌≢◌, refl, List, [], ◌∷◌, arith, All}
use tge_core.Process.CommandLine.{build_command_line}
use tge_core.Process.CommandLine.Reading.{Splits, read_program}
use tge_core.Process.CommandLine.RoundTrip.{build_command_line_lem}

-- `a`, and the arguments `b c`, `\"` and the empty one.
abbrev program : List ℕ
program = 97 ∷ []

abbrev arguments : List (List ℕ)
arguments = (98 ∷ 32 ∷ 99 ∷ []) ∷ (92 ∷ 34 ∷ []) ∷ [] ∷ []

program_plain : All (λ c. c ≢ 34) program
program_plain = ((λ e. absurd (omega (arith, e))), tt)

-- `"a" "b c" "\\\"" ""`
builds :
    build_command_line program arguments
    ≡ 34 ∷ 97 ∷ 34 ∷ 32 ∷ 34 ∷ 98 ∷ 32 ∷ 99 ∷ 34 ∷ 32 ∷ 34 ∷ 92 ∷ 92 ∷ 92 ∷ 34 ∷ 34 ∷ 32 ∷ 34 ∷ 34
      ∷ []
unfolding build_command_line
builds = refl

build_command_line_lem_example :
    ((read_program (build_command_line program arguments)).0 ≡ program)
    × Splits (read_program (build_command_line program arguments)).1 arguments
build_command_line_lem_example = build_command_line_lem program arguments program_plain
