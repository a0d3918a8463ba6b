-- ===== src/Logging/Config/Trim.antt =====
-- `Trim` of a text: what it takes off at both ends, and what it leaves.
use mathlib.Core.List.{
  reverse, reverse-append, reverse-reverse, reverse-cons, append_assoc, append-nil,
}
use tge_core.Prelude.{
  ℕ, ◌≡◌, refl, ◌∙◌, ap, sym, subst, Bool, true, false, not, ◌==◌, ◌||◌, List, [], ◌∷◌, ◌++◌, All,
  Bool-cases, inl, inr,
}
use tge_core.Prelude.{All-join}
use tge_core.Logging.Config.{is_blank, trim_start, trim}

-- Spaces and tabs.
abbrev pub Blanks : List ℕ → Type 0
Blanks = All (λ c. ((c == 32) || (c == 9)) ≡ true)

-- A text starts with another character.
abbrev pub starts_solid : List ℕ → Bool
starts_solid [] = false
starts_solid (c ∷ cs) = not ((c == 32) || (c == 9))

-- The second loop of `Trim`.
abbrev pub trim_end : List ℕ → List ℕ
trim_end str = reverse (trim_start (reverse str))

reverse-around :
    (a : List ℕ) (c : ℕ) (b : List ℕ) → reverse (a ++ (c ∷ b)) ≡ reverse b ++ (c ∷ reverse a)
reverse-around a c b =
    reverse-append a (c ∷ b)
    ∙ ap (λ l. l ++ reverse a) (reverse-cons c b)
    ∙ append_assoc (reverse b) (c ∷ []) (reverse a)

pub All-reverse : (P : ℕ → Type 0) (xs : List ℕ) → All P xs → All P (reverse xs)
All-reverse P [] h = tt
All-reverse P (x ∷ xs) h =
    subst (All P) (sym (reverse-cons x xs))
      (All-join P (reverse xs) (x ∷ []) (All-reverse P xs h.1) (h.0, tt))

pub All-trim_start : (P : ℕ → Type 0) (xs : List ℕ) → All P xs → All P (trim_start xs)
unfolding trim_start
All-trim_start P [] h = tt
All-trim_start P (x ∷ xs) h = elim (Bool-cases (is_blank x)) [
  | inl e ↦ rw (trim_start, e) (All-trim_start P xs h.1)
  | inr e ↦ rw (trim_start, e) h
]

pub All-trim : (P : ℕ → Type 0) (xs : List ℕ) → All P xs → All P (trim xs)
unfolding trim
All-trim P xs h = All-reverse P _ (All-trim_start P _ (All-reverse P _ (All-trim_start P xs h)))

trim_start-Blanks_before : (b xs : List ℕ) → Blanks b → trim_start (b ++ xs) ≡ trim_start xs
unfolding trim_start
trim_start-Blanks_before [] xs h = refl
trim_start-Blanks_before (x ∷ b) xs h = rw (trim_start, h.0) (trim_start-Blanks_before b xs h.1)

pub trim_start-Blanks : (b : List ℕ) → Blanks b → trim_start b ≡ []
unfolding trim_start
trim_start-Blanks [] h = refl
trim_start-Blanks (x ∷ b) h = rw (trim_start, h.0) (trim_start-Blanks b h.1)

trim_start-solid : (xs ys : List ℕ) → starts_solid xs ≡ true → trim_start (xs ++ ys) ≡ xs ++ ys
unfolding trim_start
trim_start-solid [] ys h = absurd (cc h)
trim_start-solid (x ∷ xs) ys h = elim (Bool-cases (is_blank x)) [
  | inl e ↦ absurd (cc (sym h ∙ ap not e))
  | inr e ↦ rw (trim_start, e) refl
]

pub trim_start-around :
    (a : List ℕ) (c : ℕ) (b : List ℕ)
    → is_blank c ≡ false
    → trim_start (a ++ (c ∷ b)) ≡ trim_start a ++ (c ∷ b)
unfolding trim_start
trim_start-around [] c b e = rw (trim_start, e) refl
trim_start-around (x ∷ a) c b e = elim (Bool-cases (is_blank x)) [
  | inl h ↦ rw (trim_start, h) (trim_start-around a c b e)
  | inr h ↦ rw (trim_start, h) refl
]

trim_end-around :
    (a : List ℕ) (c : ℕ) (b : List ℕ)
    → is_blank c ≡ false
    → trim_end (a ++ (c ∷ b)) ≡ a ++ (c ∷ trim_end b)
trim_end-around a c b e =
    ap (λ l. reverse (trim_start l)) (reverse-around a c b)
    ∙ ap reverse (trim_start-around (reverse b) c (reverse a) e)
    ∙ reverse-around (trim_start (reverse b)) c (reverse a)
    ∙ ap (λ l. l ++ (c ∷ trim_end b)) (reverse-reverse a)

-- A character that is not blank stays, and both ends are trimmed apart.
pub trim-around :
    (a : List ℕ) (c : ℕ) (b : List ℕ)
    → is_blank c ≡ false
    → trim (a ++ (c ∷ b)) ≡ trim_start a ++ (c ∷ trim_end b)
unfolding trim
trim-around a c b e = ap trim_end (trim_start-around a c b e) ∙ trim_end-around (trim_start a) c b e

pub trim_end-Blanks : (b : List ℕ) → Blanks b → trim_end b ≡ []
trim_end-Blanks b h =
    ap reverse (trim_start-Blanks (reverse b) (All-reverse (λ c. is_blank c ≡ true) b h))

trim_end-solid :
    (xs b : List ℕ) → starts_solid (reverse xs) ≡ true → Blanks b → trim_end (xs ++ b) ≡ xs
trim_end-solid xs b solid h =
    ap (λ l. reverse (trim_start l)) (reverse-append xs b)
    ∙ ap reverse (
        trim_start-Blanks_before (reverse b) (reverse xs) (All-reverse (λ c. is_blank c ≡ true) b h)
        ∙ ap trim_start (sym (append-nil (reverse xs)))
        ∙ trim_start-solid (reverse xs) [] solid
        ∙ append-nil (reverse xs))
    ∙ reverse-reverse xs

-- Blanks around a text that starts and ends with another character are taken off.
pub trim_padded :
    (a xs b : List ℕ)
    → Blanks a
    → starts_solid xs ≡ true
    → starts_solid (reverse xs) ≡ true
    → Blanks b
    → trim (a ++ (xs ++ b)) ≡ xs
unfolding trim
trim_padded a xs b before first last after =
    ap trim_end (trim_start-Blanks_before a (xs ++ b) before ∙ trim_start-solid xs b first)
    ∙ trim_end-solid xs b last after
