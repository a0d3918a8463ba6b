-- ===== src/Command/Tests.antt =====
-- Two groups of commands, and command lines for them.
use tge_core.Prelude.{ℕ, ◌≡◌, refl, true, List, [], ◌∷◌, some, arith}
use tge_core.Memory.Tracking.{no_stats, get_stats}
use tge_core.Command.{Group, Registry, same_text, tokenize, execute}
use tge_core.Command.Tokens.{Words, tokenize-Words}
use tge_core.Command.Dispatch.{IsRun, execute_lem}
use tge_core.Command.Accounting.{
  Accounted, creates, destroys, terminates, perform_all, perform_all-Accounted,
}

-- ` ab\tc `
abbrev line : List ℕ
line = 32 ∷ 97 ∷ 98 ∷ 9 ∷ 99 ∷ 32 ∷ []

abbrev verb : List ℕ
verb = 97 ∷ 98 ∷ []

tokens_of_line : tokenize line ≡ verb ∷ (99 ∷ []) ∷ []
unfolding tokenize
tokens_of_line = refl

tokenize-Words_example : Words line (tokenize line)
tokenize-Words_example = tokenize-Words line

abbrev empty_group : Group
empty_group = record { address = 16; name = 120 ∷ []; color = 0; commands = [] }

abbrev group : Group
group = record empty_group { address = 32; commands = record { verb = verb; callback = 7 } ∷ [] }

runs_second_group :
    execute (empty_group ∷ group ∷ []) line
    ≡ (true, record { callback = 7; arguments = verb ∷ (99 ∷ []) ∷ [] } ∷ [])
unfolding execute same_text
runs_second_group = refl

execute_lem_example :
    IsRun
      (empty_group ∷ group ∷ [])
      verb
      (verb ∷ (99 ∷ []) ∷ [])
      (execute (empty_group ∷ group ∷ []) line)
execute_lem_example =
    execute_lem (empty_group ∷ group ∷ []) line verb ((99 ∷ []) ∷ []) tokens_of_line

abbrev registry : Registry
registry = record {
  groups = [];
  tracker = record { stats = no_stats ∷ []; names = 0 ∷ []; num_categories = 1 };
}

registry-Accounted : Accounted 0 96 registry
unfolding get_stats
registry-Accounted = record {
  stats = no_stats;
  found = refl;
  counts = record { words = (omega arith, omega arith); usage = refl };
}

perform_all-Accounted_example :
    (r' : Registry) × (perform_all 0 96
        (creates 16 verb 1 ∷ creates 32 [] 2 ∷ destroys 16 ∷ destroys 5 ∷ terminates ∷ [])
        registry
      ≡ some r')
    × Accounted 0 96 r'
perform_all-Accounted_example =
    perform_all-Accounted 0 96
      (creates 16 verb 1 ∷ creates 32 [] 2 ∷ destroys 16 ∷ destroys 5 ∷ terminates ∷ []) registry
      registry-Accounted
