-- ===== src/Logging/Config/Lines.antt =====
-- What a line of a configuration file says, apart from how it is parsed.
use mathlib.Core.List.{reverse, map}
use tge_core.Prelude.{
  ℕ, ◌+◌, ◌==◌, ◌≡◌, Bool, true, false, ◌||◌, List, [], ◌∷◌, ◌++◌, if◌then◌else◌, All,
}
use tge_core.Logging.Config.{Setting}
use tge_core.Logging.Config.Trim.{Blanks, starts_solid}

-- The letters of a mask: `n`, `e`, `w`, `i` and `a`, and their capitals.
pub data Letter : Type 0 where
  none_letter error_letter warning_letter info_letter all_letter : Letter

abbrev pub character : Letter → Bool → ℕ
character none_letter capital = if capital then 78 else 110
character error_letter capital = if capital then 69 else 101
character warning_letter capital = if capital then 87 else 119
character info_letter capital = if capital then 73 else 105
character all_letter capital = if capital then 65 else 97

-- The levels that a channel shows.
pub record Mask : Type 0 where
  pub error : Bool
  pub warning : Bool
  pub info : Bool

abbrev pub nothing_shown : Mask
nothing_shown = record { error = false; warning = false; info = false }

-- `n` hides all levels, `a` shows all, and each other letter adds its own.
abbrev pub with_letter : Mask → Letter → Mask
with_letter m none_letter = nothing_shown
with_letter m error_letter = record m { error = true }
with_letter m warning_letter = record m { warning = true }
with_letter m info_letter = record m { info = true }
with_letter m all_letter = record { error = true; warning = true; info = true }

abbrev pub with_letters : Mask → List (Letter × Bool) → Mask
with_letters m [] = m
with_letters m (x ∷ xs) = with_letters (with_letter m x.0) xs

abbrev pub spelled : List (Letter × Bool) → List ℕ
spelled = map (λ x. character x.0 x.1)

-- `ELogLevel`: errors are bit 0, warnings bit 1 and infos bit 2.
abbrev pub level_of : Mask → ℕ
level_of m = (if m.error then 1 else 0) + (if m.warning then 2 else 0) + (if m.info then 4 else 0)

-- No character of a text is `=`.
abbrev pub NoSign : List ℕ → Type 0
NoSign = All (λ c. (c == 61) ≡ false)

-- A name with no `=`, and no blank at its ends.
pub record IsKey (key : List ℕ) : Type 0 where
  pub first : starts_solid key ≡ true
  pub last : starts_solid (reverse key) ≡ true
  pub no_sign : NoSign key

-- `key = letters`, with blanks anywhere around both, for a key that does not start with `#`.
pub data Sets : List ℕ → Setting → Type 0 where
  sets :
      (before between behind after : List ℕ) (c : ℕ) (cs : List ℕ) (x : Letter × Bool)
      (xs : List (Letter × Bool))
      → Blanks before
      → Blanks between
      → Blanks behind
      → Blanks after
      → (c == 35) ≡ false
      → IsKey (c ∷ cs)
      → Sets
          (before ++ (((c ∷ cs) ++ (between ++ (61 ∷ (behind ++ spelled (x ∷ xs))))) ++ after))
          (record { key = c ∷ cs; level = level_of (with_letters nothing_shown (x ∷ xs)) })

-- A character that is no letter of a mask.
abbrev pub NoLetter : ℕ → Type 0
NoLetter c = (l : Letter) (capital : Bool) → (c == character l capital) ≡ false

-- Lines that set nothing: blank ones, comments, those without `=`, and those whose value is empty,
-- has a character other than a blank that is no letter of a mask, or has a blank between two other
-- characters.
pub data SetsNothing : List ℕ → Type 0 where
  blank_line : (text : List ℕ) → Blanks text → SetsNothing text
  comment_line : (before text : List ℕ) → Blanks before → SetsNothing (before ++ (35 ∷ text))
  unsigned_line : (text : List ℕ) → NoSign text → SetsNothing text
  empty_value :
      (left value : List ℕ) → NoSign left → Blanks value → SetsNothing (left ++ (61 ∷ value))
  foreign_value :
      (left right : List ℕ) (c : ℕ) (rest : List ℕ)
      → NoSign left
      → ((c == 32) || (c == 9)) ≡ false
      → NoLetter c
      → SetsNothing (left ++ (61 ∷ (right ++ (c ∷ rest))))
  spaced_value :
      (left right : List ℕ) (x blank : ℕ) (middle : List ℕ) (y : ℕ) (rest : List ℕ)
      → NoSign left
      → ((x == 32) || (x == 9)) ≡ false
      → ((blank == 32) || (blank == 9)) ≡ true
      → ((y == 32) || (y == 9)) ≡ false
      → SetsNothing (left ++ (61 ∷ ((right ++ (x ∷ (blank ∷ middle))) ++ (y ∷ rest))))

-- The settings of a file, line by line.
pub data Reads : List (List ℕ) → List Setting → Type 0 where
  reads_end : Reads [] []
  reads_setting :
      {line : List ℕ} {x : Setting} {lines : List (List ℕ)} {xs : List Setting}
      → Sets line x
      → Reads lines xs
      → Reads (line ∷ lines) (x ∷ xs)
  reads_nothing :
      {line : List ℕ} {lines : List (List ℕ)} {xs : List Setting}
      → SetsNothing line
      → Reads lines xs
      → Reads (line ∷ lines) xs
