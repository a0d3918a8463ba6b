-- ===== src/Logging/Tests.antt =====
-- Channels and a configuration on concrete values.
use tge_core.Prelude.{ℕ, ◌==◌, ◌≡◌, refl, Bool, true, false, List, [], ◌∷◌, ◌++◌, some, ◌+◌}
use tge_core.Logging.{Log, LogSystem, Listener, new_log, raw, find_log, get_log_level}
use tge_core.Logging.Histories.{
  Action, writes, masks, dispatches, run, received, accepted, IsTail, run_lem,
}
use tge_core.Command.{same_text}
use tge_core.Logging.Config.{Setting, load_config}
use tge_core.Logging.Config.Lines.{
  Letter, none_letter, error_letter, warning_letter, info_letter, all_letter, character, sets,
  comment_line, unsigned_line, foreign_value, Reads, reads_end, reads_setting, reads_nothing,
}
use tge_core.Logging.Config.Levels.{default_key, load_config_lem}

abbrev listener : ℕ → Listener
listener key = record { key = key; format = raw }

abbrev channel : Log
channel = record (new_log 5 9) { listeners = listener 1 ∷ [] }

abbrev system : LogSystem
system = record {
  initialized = true;
  enabled_targets = 7;
  loggers = channel ∷ [];
  listeners = listener 2 ∷ [];
}

-- Of three messages the third is masked, and the second still pending.
abbrev actions : List Action
actions = writes 1 7 100 0 ∷ dispatches ∷ writes 4 4 101 1 ∷ masks 1 ∷ writes 2 7 102 2 ∷ []

run_lem_example :
    (received 2 (run system channel actions).1 ++ (run system channel actions).0.pending_dispatch
      ≡ accepted system 7 actions)
    × IsTail (received 2 (run system channel actions).1) (run system channel actions).0.history
run_lem_example = run_lem system channel 2 actions refl refl refl refl

-- The hash of a name is its length here.
abbrev hash : List ℕ → ℕ
hash [] = 0
hash (c ∷ cs) = 1 + hash cs

abbrev audio : List ℕ
audio = 97 ∷ 117 ∷ 100 ∷ 105 ∷ 111 ∷ []

-- `audio = ew`, then `# i`, `default = n`, `x` and `audio = a # all`.
abbrev lines : List (List ℕ)
lines =
    (97 ∷ 117 ∷ 100 ∷ 105 ∷ 111 ∷ 32 ∷ 61 ∷ 32 ∷ 101 ∷ 119 ∷ [])
    ∷ (35 ∷ 32 ∷ 105 ∷ [])
    ∷ (100 ∷ 101 ∷ 102 ∷ 97 ∷ 117 ∷ 108 ∷ 116 ∷ 32 ∷ 61 ∷ 32 ∷ 110 ∷ [])
    ∷ (120 ∷ [])
    ∷ (97 ∷ 117 ∷ 100 ∷ 105 ∷ 111 ∷ 32 ∷ 61 ∷ 32 ∷ 97 ∷ 32 ∷ 35 ∷ 32 ∷ 97 ∷ 108 ∷ 108 ∷ [])
    ∷ []

abbrev settings : List Setting
settings = record { key = audio; level = 3 } ∷ record { key = default_key; level = 0 } ∷ []

sharp_no_letter : (l : Letter) (capital : Bool) → (35 == character l capital) ≡ false
sharp_no_letter none_letter true = refl
sharp_no_letter none_letter false = refl
sharp_no_letter error_letter true = refl
sharp_no_letter error_letter false = refl
sharp_no_letter warning_letter true = refl
sharp_no_letter warning_letter false = refl
sharp_no_letter info_letter true = refl
sharp_no_letter info_letter false = refl
sharp_no_letter all_letter true = refl
sharp_no_letter all_letter false = refl

lines-Reads : Reads lines settings
lines-Reads =
    reads_setting
      (sets [] (32 ∷ []) (32 ∷ []) [] 97 (117 ∷ 100 ∷ 105 ∷ 111 ∷ []) (error_letter, false)
        ((warning_letter, false) ∷ []) tt (refl, tt) (refl, tt) tt refl
        (record {
          first = refl;
          last = refl;
          no_sign = (refl, (refl, (refl, (refl, (refl, tt)))));
        }))
      (reads_nothing (comment_line [] (32 ∷ 105 ∷ []) tt) (
        reads_setting
          (sets [] (32 ∷ []) (32 ∷ []) [] 100 (101 ∷ 102 ∷ 97 ∷ 117 ∷ 108 ∷ 116 ∷ [])
            (none_letter, false) [] tt (refl, tt) (refl, tt) tt refl
            (record {
              first = refl;
              last = refl;
              no_sign = (refl, (refl, (refl, (refl, (refl, (refl, (refl, tt)))))));
            }))
          (reads_nothing (unsigned_line (120 ∷ []) (refl, tt)) (
            reads_nothing
              (foreign_value (97 ∷ 117 ∷ 100 ∷ 105 ∷ 111 ∷ 32 ∷ []) (32 ∷ 97 ∷ 32 ∷ []) 35
                (32 ∷ 97 ∷ 108 ∷ 108 ∷ []) (refl, (refl, (refl, (refl, (refl, (refl, tt)))))) refl
                sharp_no_letter)
              reads_end))))

load_config_lem_example : get_log_level (load_config hash (some lines) (channel ∷ [])) 5 ≡ 3
unfolding find_log same_text
load_config_lem_example =
    load_config_lem hash lines settings (channel ∷ []) 5 channel lines-Reads refl
