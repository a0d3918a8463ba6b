-- ===== src/Logging/Config/Letters.antt =====
-- `ParseLogLevel`: a value that is spelled with the letters of a mask, and one with another character.
use Prim.Native.Nat.{bit_or}
use tge_core.Prelude.{
  ℕ, ◌≡◌, refl, ap, Bool, true, false, List, [], ◌∷◌, ◌++◌, none, some, Option-cases, inl, inr,
}
use tge_core.Logging.Config.{add_letter, parse_letters, parse_log_level}
use tge_core.Logging.Config.Lines.{
  Letter, none_letter, error_letter, warning_letter, info_letter, all_letter, character, Mask,
  nothing_shown, with_letter, with_letters, spelled, level_of, NoLetter,
}

mask : Bool → Bool → Bool → ℕ
mask e w i = level_of (record { error = e; warning = w; info = i })

or_error : (e w i : Bool) → bit_or (mask e w i) 1 ≡ mask true w i
unfolding mask
or_error true true true = refl
or_error true true false = refl
or_error true false true = refl
or_error true false false = refl
or_error false true true = refl
or_error false true false = refl
or_error false false true = refl
or_error false false false = refl

or_warning : (e w i : Bool) → bit_or (mask e w i) 2 ≡ mask e true i
unfolding mask
or_warning true true true = refl
or_warning true true false = refl
or_warning true false true = refl
or_warning true false false = refl
or_warning false true true = refl
or_warning false true false = refl
or_warning false false true = refl
or_warning false false false = refl

or_info : (e w i : Bool) → bit_or (mask e w i) 4 ≡ mask e w true
unfolding mask
or_info true true true = refl
or_info true true false = refl
or_info true false true = refl
or_info true false false = refl
or_info false true true = refl
or_info false true false = refl
or_info false false true = refl
or_info false false false = refl

add_letter-character :
    (m : Mask) (l : Letter) (capital : Bool)
    → add_letter (level_of m) (character l capital) ≡ some (level_of (with_letter m l))
unfolding add_letter mask
add_letter-character m none_letter true = refl
add_letter-character m none_letter false = refl
add_letter-character m error_letter true = ap some (or_error m.error m.warning m.info)
add_letter-character m error_letter false = ap some (or_error m.error m.warning m.info)
add_letter-character m warning_letter true = ap some (or_warning m.error m.warning m.info)
add_letter-character m warning_letter false = ap some (or_warning m.error m.warning m.info)
add_letter-character m info_letter true = ap some (or_info m.error m.warning m.info)
add_letter-character m info_letter false = ap some (or_info m.error m.warning m.info)
add_letter-character m all_letter true = refl
add_letter-character m all_letter false = refl

parse_letters-spelled :
    (m : Mask) (xs : List (Letter × Bool))
    → parse_letters (level_of m) (spelled xs) ≡ some (level_of (with_letters m xs))
unfolding parse_letters
parse_letters-spelled m [] = refl
parse_letters-spelled m (x ∷ xs) =
    rw (add_letter-character m x.0 x.1, parse_letters)
      (parse_letters-spelled (with_letter m x.0) xs)

pub parse_log_level-spelled :
    (x : Letter × Bool) (xs : List (Letter × Bool))
    → parse_log_level (spelled (x ∷ xs)) ≡ some (level_of (with_letters nothing_shown (x ∷ xs)))
unfolding parse_log_level
parse_log_level-spelled x xs = parse_letters-spelled nothing_shown (x ∷ xs)

add_letter-NoLetter : (level c : ℕ) → NoLetter c → add_letter level c ≡ none
unfolding add_letter
add_letter-NoLetter level c f =
    rw
      (
        add_letter,
        f none_letter false,
        f none_letter true,
        f error_letter false,
        f error_letter true,
        f warning_letter false,
        f warning_letter true,
        f info_letter false,
        f info_letter true,
        f all_letter false,
        f all_letter true,
      )
      refl

parse_letters-NoLetter :
    (level : ℕ) (a : List ℕ) (c : ℕ) (b : List ℕ)
    → NoLetter c
    → parse_letters level (a ++ (c ∷ b)) ≡ none
unfolding parse_letters
parse_letters-NoLetter level [] c b f = rw (parse_letters, add_letter-NoLetter level c f) refl
parse_letters-NoLetter level (x ∷ a) c b f = elim (Option-cases (add_letter level x)) [
  | inl e ↦ rw (parse_letters, e) refl
  | inr (next, e) ↦ rw (parse_letters, e) (parse_letters-NoLetter next a c b f)
]

pub parse_log_level-NoLetter :
    (a : List ℕ) (c : ℕ) (b : List ℕ) → NoLetter c → parse_log_level (a ++ (c ∷ b)) ≡ none
unfolding parse_log_level
parse_log_level-NoLetter [] c b f = parse_letters-NoLetter 0 [] c b f
parse_log_level-NoLetter (x ∷ a) c b f = parse_letters-NoLetter 0 (x ∷ a) c b f
