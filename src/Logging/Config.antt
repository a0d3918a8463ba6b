-- ===== src/Logging/Config.antt =====
-- private/logging/log_system.cpp: the configuration of the channels' masks. A file is the list of
-- its lines, and the hash of a channel's name is a parameter.
pub mod Trim
pub mod Lines
mod Letters
mod Parse
mod Masks
pub mod Levels
use Prim.Native.Nat.{bit_or}
use mathlib.Core.List.{reverse}
use tge_core.Prelude.{
  ℕ, ◌==◌, Bool, true, false, not, ◌&&◌, ◌||◌, List, [], ◌∷◌, ◌++◌, Option, none, some,
  if◌then◌else◌,
}
use tge_core.Command.{same_text}
use tge_core.Logging.{Log, set_level_of, set_all_log_levels, level_all}

-- One turn of the switch of `ParseLogLevel`; `none` is its default.
pub add_letter : ℕ → ℕ → Option ℕ
add_letter level c =
    if (c == 110) || (c == 78)
    then some 0
    else if (c == 101) || (c == 69)
    then some (bit_or level 1)
    else if (c == 119) || (c == 87)
    then some (bit_or level 2)
    else if (c == 105) || (c == 73)
    then some (bit_or level 4)
    else if (c == 97) || (c == 65)
    then some level_all
    else none

pub parse_letters : ℕ → List ℕ → Option ℕ
unfolding add_letter
parse_letters level [] = some level
parse_letters level (c ∷ cs) = elim (add_letter level c) [
  | none ↦ none
  | some next ↦ parse_letters next cs
]

pub parse_log_level : List ℕ → Option ℕ
unfolding parse_letters
parse_log_level [] = none
parse_log_level (c ∷ cs) = parse_letters 0 (c ∷ cs)

abbrev pub is_blank : ℕ → Bool
is_blank c = (c == 32) || (c == 9)

-- The first loop of `Trim`, and both: the second runs over the text from its end.
pub trim_start : List ℕ → List ℕ
trim_start [] = []
trim_start (c ∷ cs) = let rest = trim_start cs in if is_blank c then rest else c ∷ cs

pub trim : List ℕ → List ℕ
unfolding trim_start
trim str = reverse (trim_start (reverse (trim_start str)))

-- What stands before the first `=` and behind it.
pub split_line : List ℕ → Option (List ℕ × List ℕ)
split_line [] = none
split_line (c ∷ cs) =
    if c == 61
    then some ([], cs)
    else elim (split_line cs) [ none ↦ none | some (key, value) ↦ some (c ∷ key, value) ]

pub record Setting : Type 0 where
  pub key : List ℕ
  pub level : ℕ

abbrev pub setting_of : List ℕ → List ℕ → Option Setting
setting_of key value = elim (parse_log_level (trim value)) [
  | none ↦ none
  | some level ↦ some (record { key = trim key; level = level })
]

-- What the body of the loop over the lines makes of one: a blank line, a comment that starts with
-- `#`, a line without `=` and one whose value is no mask set nothing.
pub parse_line : List ℕ → Option Setting
unfolding trim split_line parse_log_level
parse_line line = elim (trim line) [
  | [] ↦ none
  | c ∷ cs ↦
      if c == 35
      then none
      else elim (split_line (c ∷ cs)) [ none ↦ none | some (key, value) ↦ setting_of key value ]
]

-- `defaultLevel` where `hasDefault` is set, and `channelOverrides`.
pub record Settings : Type 0 where
  pub default_level : Option ℕ
  pub channel_overrides : List Setting

-- `key == "default"`
pub is_default : Setting → Bool
is_default x = same_text x.key (100 ∷ 101 ∷ 102 ∷ 97 ∷ 117 ∷ 108 ∷ 116 ∷ [])

pub add_setting : Settings → Setting → Settings
add_setting s x =
    if is_default x
    then record s { default_level = some x.level }
    else record s { channel_overrides = s.channel_overrides ++ x ∷ [] }

pub read_settings : Settings → List (List ℕ) → Settings
unfolding add_setting
read_settings s [] = s
read_settings s (line ∷ lines) = elim (parse_line line) [
  | none ↦ read_settings s lines
  | some x ↦ read_settings (add_setting s x) lines
]

pub apply_default : List Log → Settings → List Log
apply_default ls s = elim s.default_level [ none ↦ ls | some level ↦ set_all_log_levels ls level ]

pub apply_overrides : (List ℕ → ℕ) → List Log → List Setting → List Log
apply_overrides hash ls [] = ls
apply_overrides hash ls (x ∷ xs) = apply_overrides hash (set_level_of ls (hash x.key) x.level).0 xs

-- `none` is a file that does not open.
pub load_config : (List ℕ → ℕ) → Option (List (List ℕ)) → List Log → List Log
unfolding read_settings apply_default apply_overrides
load_config hash none ls = ls
load_config hash (some lines) ls =
    let s = read_settings (record { default_level = none; channel_overrides = [] }) lines in
    apply_overrides hash (apply_default ls s) s.channel_overrides
