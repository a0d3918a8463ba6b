-- ===== src/Command.antt =====
-- private/command: the registry of console commands. A character is the number of its code, and a
-- callback the number that identifies it: a run of the registry tells which it calls with which
-- arguments.
pub mod Tokens
pub mod Dispatch
pub mod Accounting
mod Tests
use mathlib.Core.Option
use tge_core.Prelude.{
  ℕ, ◌==◌, Bool, true, false, not, ◌&&◌, ◌||◌, List, [], ◌∷◌, ◌++◌, Option, none, some,
  if◌then◌else◌, length,
}
use tge_core.Memory.Tracking.{Tracker, track_allocation, track_deallocation}

abbrev pub is_separator : ℕ → Bool
is_separator character = (character == 32) || (character == 9)

-- `if (!token.empty()) tokens.emplace_back(token)`
abbrev pub flush : List (List ℕ) → List ℕ → List (List ℕ)
flush tokens [] = tokens
flush tokens (c ∷ cs) = tokens ++ (c ∷ cs) ∷ []

-- The loop over the characters, and what follows it.
pub tokenize_from : List (List ℕ) → List ℕ → List ℕ → List (List ℕ)
tokenize_from tokens token [] = flush tokens token
tokenize_from tokens token (character ∷ rest) =
    if is_separator character
    then tokenize_from (flush tokens token) [] rest
    else tokenize_from tokens (token ++ character ∷ []) rest

pub tokenize : List ℕ → List (List ℕ)
unfolding tokenize_from
tokenize command_line = tokenize_from [] [] command_line

-- `std::string::operator==`
unfoldable pub same_text : List ℕ → List ℕ → Bool
same_text [] [] = true
same_text [] (y ∷ ys) = false
same_text (x ∷ xs) [] = false
same_text (x ∷ xs) (y ∷ ys) = (x == y) && same_text xs ys

pub record Entry : Type 0 where
  pub verb : List ℕ
  pub callback : ℕ

-- `CGroup`; its address stands for the pointer to it.
pub record Group : Type 0 where
  pub address : ℕ
  pub name : List ℕ
  pub color : ℕ
  pub commands : List Entry

-- `m_commands.find(verb)`
pub find_command : List Entry → List ℕ → Option ℕ
find_command [] verb = none
find_command (e ∷ es) verb = if same_text e.verb verb then some e.callback else find_command es verb

-- `m_commands[verb] = callback`
pub set_command : List Entry → List ℕ → ℕ → List Entry
set_command [] verb callback = record { verb = verb; callback = callback } ∷ []
set_command (e ∷ es) verb callback =
    if same_text e.verb verb
    then record e { callback = callback } ∷ es
    else e ∷ set_command es verb callback

pub register_command : Group → List ℕ → ℕ → Group
unfolding set_command
register_command g name callback = record g { commands = set_command g.commands name callback }

-- A call `it->second(tokens)`.
pub record Call : Type 0 where
  pub callback : ℕ
  pub arguments : List (List ℕ)

-- The loop over the groups.
pub execute_from : List Group → List ℕ → List (List ℕ) → Bool → List Call → Bool × List Call
unfolding find_command
execute_from [] verb tokens executed calls = (executed, calls)
execute_from (g ∷ gs) verb tokens executed calls =
    if not executed
    then elim (find_command g.commands verb) [
      | none ↦ execute_from gs verb tokens executed calls
      | some callback ↦
          execute_from gs verb tokens true
            (calls ++ record { callback = callback; arguments = tokens } ∷ [])
    ]
    else execute_from gs verb tokens executed calls

-- `CRegistry::Execute`: its result, and the calls that it makes.
pub execute : List Group → List ℕ → Bool × List Call
unfolding tokenize execute_from
execute groups command_line = elim (tokenize command_line) [
  | [] ↦ (false, [])
  | verb ∷ arguments ↦ execute_from groups verb (verb ∷ arguments) false []
]

-- The registry with the global tracker. `GroupCategory` and `sizeof(CGroup)` are parameters.
pub record Registry : Type 0 where
  pub groups : List Group
  pub tracker : Tracker

-- `m_groups.erase(it)`, for the first entry with this address; `none` where there is none.
pub erase_group : List Group → ℕ → Option (List Group)
erase_group [] address = none
erase_group (g ∷ gs) address =
    if g.address == address then some gs else Option.map (λ r. g ∷ r) (erase_group gs address)

abbrev on_groups : List Group → Tracker → Registry
on_groups groups tracker = record { groups = groups; tracker = tracker }

module _ (group_category group_size : ℕ) where
  -- `address` is what `new` returns; `none` is an access out of the tracker's array.
  pub create_group : Registry → ℕ → List ℕ → ℕ → Option Registry
  create_group r address name color =
      Option.map
        (on_groups (
          r.groups ++ record { address = address; name = name; color = color; commands = [] } ∷ []))
        (track_allocation r.tracker group_category group_size)

  -- A pointer that this registry did not create is left alone, with a warning.
  pub destroy_group : Registry → ℕ → Option Registry
  unfolding erase_group
  destroy_group r address = elim (erase_group r.groups address) [
    | none ↦ some r
    | some rest ↦
        Option.map (on_groups rest) (track_deallocation r.tracker group_category group_size)
  ]

  -- The second loop of `Terminate`.
  pub untrack_groups : List Group → Tracker → Option Tracker
  untrack_groups [] t = some t
  untrack_groups (g ∷ gs) t = elim (track_deallocation t group_category group_size) [
    | none ↦ none
    | some t' ↦ untrack_groups gs t'
  ]

  pub terminate : Registry → Option Registry
  unfolding untrack_groups
  terminate r = Option.map (on_groups []) (untrack_groups r.groups r.tracker)
