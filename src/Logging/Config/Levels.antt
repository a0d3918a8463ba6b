-- ===== src/Logging/Config/Levels.antt =====
-- Which mask a configuration file gives to a channel.
use tge_core.Prelude.{
  ℕ, ◌==◌, ◌≡◌, refl, ap, ◌∙◌, Bool, not, ◌&&◌, List, [], ◌∷◌, ◌++◌, none, some, if◌then◌else◌, inl,
  inr, Bool-cases, Option-cases,
}
use tge_core.Command.{same_text}
use tge_core.Logging.{Log, find_log, set_level_of, get_log_level}
use tge_core.Logging.Config.{
  Setting, Settings, parse_line, is_default, add_setting, read_settings, apply_default,
  apply_overrides, load_config,
}
use tge_core.Logging.Config.Lines.{Reads, reads_end, reads_setting, reads_nothing}
use tge_core.Logging.Config.Masks.{
  HasMask, set_all_log_levels-HasMask, set_level_of-HasMask, find_log-HasMask,
  get_log_level-HasMask,
}
use tge_core.Logging.Config.Parse.{parse_line-Sets, parse_line-SetsNothing}

-- The settings that the lines of a file make, in order.
settings_of : List (List ℕ) → List Setting
settings_of [] = []
settings_of (line ∷ lines) = elim (parse_line line) [
  | none ↦ settings_of lines
  | some x ↦ x ∷ settings_of lines
]

-- The level of the last setting that passes the test, or else `old`.
abbrev pub last_level : (Setting → Bool) → ℕ → List Setting → ℕ
last_level p old [] = old
last_level p old (x ∷ xs) = last_level p (if p x then x.level else old) xs

apply_overrides-HasMask :
    (hash : List ℕ → ℕ) (ls : List Log) (xs : List Setting) (id old : ℕ)
    → HasMask ls id old
    → HasMask (apply_overrides hash ls xs) id (last_level (λ x. hash x.key == id) old xs)
unfolding apply_overrides
apply_overrides-HasMask hash ls [] id old h = h
apply_overrides-HasMask hash ls (x ∷ xs) id old h =
    apply_overrides-HasMask hash (set_level_of ls (hash x.key) x.level).0 xs id _
      (set_level_of-HasMask ls id old (hash x.key) x.level h)

default_or : ℕ → Settings → ℕ
default_or old s = elim s.default_level [ none ↦ old | some level ↦ level ]

apply_default-HasMask :
    (ls : List Log) (s : Settings) (id old : ℕ)
    → HasMask ls id old
    → HasMask (apply_default ls s) id (default_or old s)
unfolding apply_default default_or
apply_default-HasMask ls s id old h = elim (Option-cases s.default_level) [
  | inl e ↦ rw (apply_default, default_or, e) h
  | inr (level, e) ↦
      rw (apply_default, default_or, e) (set_all_log_levels-HasMask ls id old level h)
]

default_or-add_setting :
    (s : Settings) (x : Setting) (old : ℕ)
    → default_or old (add_setting s x) ≡ (if is_default x then x.level else default_or old s)
unfolding default_or add_setting
default_or-add_setting s x old = elim (Bool-cases (is_default x)) [
  | inl e ↦ rw (default_or, e) refl
  | inr e ↦ rw (default_or, e) refl
]

last_level-append :
    (p : Setting → Bool) (old : ℕ) (xs ys : List Setting)
    → last_level p old (xs ++ ys) ≡ last_level p (last_level p old xs) ys
last_level-append p old [] ys = refl
last_level-append p old (x ∷ xs) ys = last_level-append p (if p x then x.level else old) xs ys

last_level-add_setting :
    (p : Setting → Bool) (s : Settings) (x : Setting) (old : ℕ)
    → last_level p old (add_setting s x).channel_overrides
      ≡ (if not (is_default x) && p x then x.level else last_level p old s.channel_overrides)
unfolding add_setting
last_level-add_setting p s x old = elim (Bool-cases (is_default x)) [
  | inl e ↦ rw e refl
  | inr e ↦ rw e (last_level-append p old s.channel_overrides (x ∷ []))
]

read_settings-default :
    (s : Settings) (lines : List (List ℕ)) (old : ℕ)
    → default_or old (read_settings s lines)
      ≡ last_level is_default (default_or old s) (settings_of lines)
unfolding read_settings settings_of
read_settings-default s [] old = refl
read_settings-default s (line ∷ lines) old = elim (Option-cases (parse_line line)) [
  | inl e ↦ rw (read_settings, settings_of, e) (read_settings-default s lines old)
  | inr (x, e) ↦
      rw (read_settings, settings_of, e)
        (read_settings-default (add_setting s x) lines old
          ∙ ap (λ n. last_level is_default n (settings_of lines)) (default_or-add_setting s x old))
]

read_settings-overrides :
    (s : Settings) (lines : List (List ℕ)) (p : Setting → Bool) (old : ℕ)
    → last_level p old (read_settings s lines).channel_overrides
      ≡ last_level
          (λ x. not (is_default x) && p x)
          (last_level p old s.channel_overrides)
          (settings_of lines)
unfolding read_settings settings_of
read_settings-overrides s [] p old = refl
read_settings-overrides s (line ∷ lines) p old = elim (Option-cases (parse_line line)) [
  | inl e ↦ rw (read_settings, settings_of, e) (read_settings-overrides s lines p old)
  | inr (x, e) ↦
      rw (read_settings, settings_of, e)
        (read_settings-overrides (add_setting s x) lines p old
          ∙ ap (λ n. last_level (λ y. not (is_default y) && p y) n (settings_of lines))
              (last_level-add_setting p s x old))
]

abbrev no_settings : Settings
no_settings = record { default_level = none; channel_overrides = [] }

-- The key that stands for all channels, "default".
abbrev pub default_key : List ℕ
default_key = 100 ∷ 101 ∷ 102 ∷ 97 ∷ 117 ∷ 108 ∷ 116 ∷ []

abbrev pub names_default : Setting → Bool
names_default x = same_text x.key default_key

abbrev pub names_channel : (List ℕ → ℕ) → ℕ → Setting → Bool
names_channel hash id x = not (names_default x) && (hash x.key == id)

settings_of-Reads :
    (lines : List (List ℕ)) (xs : List Setting) → Reads lines xs → settings_of lines ≡ xs
unfolding settings_of
settings_of-Reads _ _ reads_end = refl
settings_of-Reads _ _ (reads_setting {line} {x} {lines} {xs} s r) =
    rw (settings_of, parse_line-Sets line x s) (ap (λ l. x ∷ l) (settings_of-Reads lines xs r))
settings_of-Reads _ _ (reads_nothing {line} {lines} {xs} s r) =
    rw (settings_of, parse_line-SetsNothing line s) (settings_of-Reads lines xs r)

load_config-settings_of :
    (hash : List ℕ → ℕ) (lines : List (List ℕ)) (ls : List Log) (id : ℕ) (l : Log)
    → find_log ls id ≡ some l
    → get_log_level (load_config hash (some lines) ls) id
      ≡ last_level
          (λ x. not (is_default x) && (hash x.key == id))
          (last_level is_default l.level_mask (settings_of lines))
          (settings_of lines)
unfolding load_config default_or
load_config-settings_of hash lines ls id l e =
    let s = read_settings no_settings lines in
    let names : Setting → Bool = (λ x. hash x.key == id) in
    let before = apply_default-HasMask ls s id l.level_mask (find_log-HasMask ls id l e) in
    let after =
      apply_overrides-HasMask hash (apply_default ls s) s.channel_overrides id
        (default_or l.level_mask s) before in
    get_log_level-HasMask (load_config hash (some lines) ls) id
      (last_level names (default_or l.level_mask s) s.channel_overrides) after
    ∙ read_settings-overrides no_settings lines names (default_or l.level_mask s)
    ∙ ap (λ n. last_level (λ x. not (is_default x) && names x) n (settings_of lines))
        (read_settings-default no_settings lines l.level_mask)

-- Loading a file gives a channel the level of the last line that sets its name, or else that of the
-- last line that sets the key "default", or else leaves its mask: wherever these lines stand, and
-- whatever lines there are that set nothing. What a line of the file says is described apart from the
-- code. One that sets a level has a key, `=` and letters of a mask, in either case, with spaces and
-- tabs around them; the key is not empty, has no `=`, does not start with `#` and has no blank at its
-- ends. One that sets nothing is blank, a comment, or without `=`, or its value is empty, has a
-- character other than a blank that is no letter of a mask, or a blank between two others. So a value
-- with a comment behind it sets nothing.
pub load_config_lem :
    (hash : List ℕ → ℕ) (lines : List (List ℕ)) (xs : List Setting) (ls : List Log) (id : ℕ)
    (l : Log)
    → Reads lines xs
    → find_log ls id ≡ some l
    → get_log_level (load_config hash (some lines) ls) id
      ≡ last_level (names_channel hash id) (last_level names_default l.level_mask xs) xs
unfolding is_default
load_config_lem hash lines xs ls id l r e =
    load_config-settings_of hash lines ls id l e
    ∙ ap (λ ys. last_level (names_channel hash id) (last_level names_default l.level_mask ys) ys)
        (settings_of-Reads lines xs r)
