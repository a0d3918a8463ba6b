-- ===== src/Logging/Config/Parse.antt =====
-- The parsing of a line, against what the line says.
use mathlib.Core.List.{reverse, reverse-append, reverse-cons, append_assoc, append-nil}
use tge_core.Prelude.{
  ℕ, ◌==◌, ◌≡◌, refl, ◌∙◌, ap, sym, subst, Bool, true, false, not, ◌||◌, List, [], ◌∷◌, ◌++◌,
  Option, none, some, All, Bool-cases, inl, inr, All-join, arith,
}
use tge_core.Logging.Config.{
  Setting, parse_log_level, trim_start, trim, split_line, setting_of, parse_line,
}
use tge_core.Logging.Config.Trim.{
  Blanks, starts_solid, trim_end, trim_start-around, trim-around, trim_padded, trim_start-Blanks,
  trim_end-Blanks, All-trim, All-trim_start, All-reverse,
}
use tge_core.Logging.Config.Lines.{
  NoLetter, Letter, none_letter, error_letter, warning_letter, info_letter, all_letter, character,
  spelled, NoSign, Sets, sets, SetsNothing, blank_line, comment_line, unsigned_line, empty_value,
  foreign_value, spaced_value,
}
use tge_core.Logging.Config.Letters.{parse_log_level-spelled, parse_log_level-NoLetter}

split_line-sign :
    (left value : List ℕ) → NoSign left → split_line (left ++ (61 ∷ value)) ≡ some (left, value)
unfolding split_line
split_line-sign [] value h = refl
split_line-sign (c ∷ left) value h = rw (split_line, h.0, split_line-sign left value h.1) refl

split_line-NoSign : (text : List ℕ) → NoSign text → split_line text ≡ none
unfolding split_line
split_line-NoSign [] h = refl
split_line-NoSign (c ∷ text) h = rw (split_line, h.0, split_line-NoSign text h.1) refl

-- Characters that are not blank.
abbrev Solid : List ℕ → Type 0
Solid = All (λ c. ((c == 32) || (c == 9)) ≡ false)

spelled-Solid : (xs : List (Letter × Bool)) → Solid (spelled xs)
spelled-Solid [] = tt
spelled-Solid (x ∷ xs) = (not_blank x.0 x.1, spelled-Solid xs)
  where
    not_blank : (l : Letter) (b : Bool) → ((character l b == 32) || (character l b == 9)) ≡ false
    not_blank none_letter true = refl
    not_blank none_letter false = refl
    not_blank error_letter true = refl
    not_blank error_letter false = refl
    not_blank warning_letter true = refl
    not_blank warning_letter false = refl
    not_blank info_letter true = refl
    not_blank info_letter false = refl
    not_blank all_letter true = refl
    not_blank all_letter false = refl

Solid-starts : (xs : List ℕ) (x : ℕ) → Solid (xs ++ (x ∷ [])) → starts_solid (xs ++ (x ∷ [])) ≡ true
Solid-starts [] x h = rw (h.0) refl
Solid-starts (y ∷ ys) x h = rw (h.0) refl

Solid-ends : (x : ℕ) (xs : List ℕ) → Solid (x ∷ xs) → starts_solid (reverse (x ∷ xs)) ≡ true
Solid-ends x xs h =
    let turned =
      subst Solid (reverse-cons x xs)
        (All-reverse (λ c. ((c == 32) || (c == 9)) ≡ false) (x ∷ xs) h) in
    ap starts_solid (reverse-cons x xs) ∙ Solid-starts (reverse xs) x turned

starts_solid-append : (xs ys : List ℕ) → starts_solid xs ≡ true → starts_solid (xs ++ ys) ≡ true
starts_solid-append [] ys h = absurd (cc h)
starts_solid-append (x ∷ xs) ys h = h

ends_solid-append :
    (xs ys : List ℕ) → starts_solid (reverse ys) ≡ true → starts_solid (reverse (xs ++ ys)) ≡ true
ends_solid-append xs ys h =
    ap starts_solid (reverse-append xs ys) ∙ starts_solid-append (reverse ys) (reverse xs) h

-- What a trimmed line that is no comment sets.
content : List ℕ → Option Setting
content text = elim (split_line text) [ none ↦ none | some (key, value) ↦ setting_of key value ]

parse_line-content :
    (line : List ℕ) (c : ℕ) (cs : List ℕ)
    → trim line ≡ c ∷ cs
    → (c == 35) ≡ false
    → parse_line line ≡ content (c ∷ cs)
unfolding parse_line content
parse_line-content line c cs e h = rw (parse_line, e, h) refl

content-setting :
    (text left right key word : List ℕ) (level : ℕ)
    → split_line text ≡ some (left, right)
    → trim left ≡ key
    → trim right ≡ word
    → parse_log_level word ≡ some level
    → content text ≡ some (record { key = key; level = level })
unfolding content
content-setting text left right key word level e k w l =
    let read = ap parse_log_level w ∙ l in rw (content, e, setting_of, read, k) refl

content_unset :
    (text left right : List ℕ)
    → split_line text ≡ some (left, right)
    → parse_log_level (trim right) ≡ none
    → content text ≡ none
unfolding content
content_unset text left right e l = rw (content, e, setting_of, l) refl

Blanks-NoSign : (xs : List ℕ) → Blanks xs → NoSign xs
Blanks-NoSign [] h = tt
Blanks-NoSign (x ∷ xs) h = (ground arith, Blanks-NoSign xs h.1)

-- A line that sets a channel is read as its setting.
pub parse_line-Sets : (line : List ℕ) (x : Setting) → Sets line x → parse_line line ≡ some x
parse_line-Sets _ _ (sets before between behind after c cs x xs b0 b1 b2 b3 h key) =
    let word = spelled (x ∷ xs) in
    let solid = spelled-Solid (x ∷ xs) in
    let ends = Solid-ends _ _ solid in
    let value = behind ++ word in
    let apart = sym (append_assoc (c ∷ cs) between (61 ∷ value)) in
    let last =
      ends_solid-append ((c ∷ cs) ++ between) (61 ∷ value)
        (ends_solid-append (61 ∷ behind) word ends) in
    let whole =
      trim_padded before ((c ∷ cs) ++ (between ++ (61 ∷ value))) after b0 key.first
        (ap (λ l. starts_solid (reverse l)) apart ∙ last) b3 in
    let halves =
      ap split_line apart
      ∙ split_line-sign ((c ∷ cs) ++ between) value (
          All-join (λ k. (k == 61) ≡ false) (c ∷ cs) between key.no_sign
            (Blanks-NoSign between b1)) in
    let left = trim_padded [] (c ∷ cs) between tt key.first key.last b1 in
    let right =
      ap (λ l. trim (behind ++ l)) (sym (append-nil word))
      ∙ trim_padded behind word [] b2 (ap not solid.0) ends tt in
    parse_line-content _ c (cs ++ (between ++ (61 ∷ value))) whole h
    ∙ content-setting _ ((c ∷ cs) ++ between) value (c ∷ cs) word _ halves left right
        (parse_log_level-spelled x xs)

-- A line sets nothing if what is left of it, where it is no comment, sets nothing.
parse_line_unset :
    (line text : List ℕ) → trim line ≡ text → content text ≡ none → parse_line line ≡ none
unfolding parse_line content
parse_line_unset line [] e h = rw (parse_line, e) refl
parse_line_unset line (c ∷ cs) e h = elim (Bool-cases (c == 35)) [
  | inl sharp ↦ rw (parse_line, e, sharp) refl
  | inr other ↦ parse_line-content line c cs e other ∙ h
]

empty_word : parse_log_level (trim []) ≡ none
unfolding parse_log_level trim trim_start
empty_word = refl

-- A value that is no mask once it is trimmed sets nothing.
parse_line_bad :
    (left right : List ℕ) (c : ℕ) (rest : List ℕ)
    → NoSign left
    → ((c == 32) || (c == 9)) ≡ false
    → parse_log_level (trim_start right ++ (c ∷ trim_end (trim_end rest))) ≡ none
    → parse_line (left ++ (61 ∷ (right ++ (c ∷ rest)))) ≡ none
parse_line_bad left right c rest h b bad =
    let value = right ++ (c ∷ trim_end rest) in
    let e =
      ap trim (sym (append_assoc left (61 ∷ right) (c ∷ rest)))
      ∙ trim-around (left ++ (61 ∷ right)) c rest b
      ∙ ap (λ l. l ++ (c ∷ trim_end rest)) (trim_start-around left 61 right refl)
      ∙ append_assoc (trim_start left) (61 ∷ right) (c ∷ trim_end rest) in
    parse_line_unset (left ++ (61 ∷ (right ++ (c ∷ rest)))) (trim_start left ++ (61 ∷ value)) e (
      content_unset (trim_start left ++ (61 ∷ value)) (trim_start left) value
        (split_line-sign (trim_start left) value (All-trim_start (λ k. (k == 61) ≡ false) left h))
        (ap parse_log_level (trim-around right c (trim_end rest) b) ∙ bad))

is_blank-NoLetter : (c : ℕ) → ((c == 32) || (c == 9)) ≡ true → NoLetter c
is_blank-NoLetter c b none_letter capital = ground arith
is_blank-NoLetter c b error_letter capital = ground arith
is_blank-NoLetter c b warning_letter capital = ground arith
is_blank-NoLetter c b info_letter capital = ground arith
is_blank-NoLetter c b all_letter capital = ground arith

parse_log_level-spaced :
    (right : List ℕ) (x c : ℕ) (middle end : List ℕ)
    → ((x == 32) || (x == 9)) ≡ false
    → ((c == 32) || (c == 9)) ≡ true
    → parse_log_level (trim_start (right ++ (x ∷ (c ∷ middle))) ++ end) ≡ none
parse_log_level-spaced right x c middle end b0 b1 =
    ap (λ l. parse_log_level (l ++ end))
      (trim_start-around right x (c ∷ middle) b0
        ∙ sym (append_assoc (trim_start right) (x ∷ []) (c ∷ middle)))
    ∙ ap parse_log_level (append_assoc (trim_start right ++ (x ∷ [])) (c ∷ middle) end)
    ∙ parse_log_level-NoLetter (trim_start right ++ (x ∷ [])) c (middle ++ end)
        (is_blank-NoLetter c b1)

-- A line that sets nothing is skipped.
pub parse_line-SetsNothing : (line : List ℕ) → SetsNothing line → parse_line line ≡ none
unfolding content trim parse_line
parse_line-SetsNothing line (blank_line _ b) =
    parse_line_unset line [] (ap trim_end (trim_start-Blanks line b)) refl
parse_line-SetsNothing _ (comment_line before text b) =
    let e =
      trim-around before 35 text refl
      ∙ ap (λ l. l ++ (35 ∷ trim_end text)) (trim_start-Blanks before b) in
    rw (parse_line, e) refl
parse_line-SetsNothing line (unsigned_line _ h) =
    parse_line_unset line (trim line) refl
      (rw (content, split_line-NoSign (trim line) (All-trim (λ c. (c == 61) ≡ false) line h)) refl)
parse_line-SetsNothing _ (empty_value left value h b) =
    parse_line_unset (left ++ (61 ∷ value)) (trim_start left ++ (61 ∷ []))
      (trim-around left 61 value refl
        ∙ ap (λ l. trim_start left ++ (61 ∷ l)) (trim_end-Blanks value b))
      (content_unset (trim_start left ++ (61 ∷ [])) (trim_start left) []
        (split_line-sign (trim_start left) [] (All-trim_start (λ c. (c == 61) ≡ false) left h))
        (empty_word))
parse_line-SetsNothing _ (foreign_value left right c rest h b f) =
    parse_line_bad left right c rest h b
      (parse_log_level-NoLetter (trim_start right) c (trim_end (trim_end rest)) f)
parse_line-SetsNothing _ (spaced_value left right x c middle y rest h b0 b1 b2) =
    parse_line_bad left (right ++ (x ∷ (c ∷ middle))) y rest h b2
      (parse_log_level-spaced right x c middle (y ∷ trim_end (trim_end rest)) b0 b1)
