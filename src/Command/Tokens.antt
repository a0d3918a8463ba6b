-- ===== src/Command/Tokens.antt =====
-- The words of a command line.
use mathlib.Core.List.{append_assoc}
use tge_core.Prelude.{
  ℕ, ◌≡◌, refl, ◌∙◌, ap, sym, subst, inl, inr, true, false, List, [], ◌∷◌, ◌++◌, Bool-cases, All,
  All-concat,
}
use tge_core.Command.{is_separator, flush, tokenize_from, tokenize}

-- A word ends at the end of the text or before a separator.
pub data Ended : List ℕ → Type 0 where
  at_end : Ended []
  before_separator : (c : ℕ) (cs : List ℕ) → is_separator c ≡ true → Ended (c ∷ cs)

-- The words of a text: what stands between separators, and nothing empty.
pub data Words : List ℕ → List (List ℕ) → Type 0 where
  finished : Words [] []
  skips :
      (c : ℕ) (cs : List ℕ) (words : List (List ℕ))
      → is_separator c ≡ true
      → Words cs words
      → Words (c ∷ cs) words
  reads :
      (c : ℕ) (word rest : List ℕ) (words : List (List ℕ))
      → All (λ x. is_separator x ≡ false) (c ∷ word)
      → Ended rest
      → Words rest words
      → Words ((c ∷ word) ++ rest) ((c ∷ word) ∷ words)

tokenize_from-append :
    (done : List (List ℕ)) (token cs : List ℕ) (tokens : List (List ℕ))
    → tokenize_from (done ++ tokens) token cs ≡ done ++ tokenize_from tokens token cs
unfolding tokenize_from
tokenize_from-append done [] [] tokens = refl
tokenize_from-append done (x ∷ xs) [] tokens = append_assoc done tokens ((x ∷ xs) ∷ [])
tokenize_from-append done token (c ∷ cs) tokens = elim (Bool-cases (is_separator c)) [
  | inl e ↦
      rw (e, tokenize_from)
        (ap (λ l. tokenize_from l [] cs) (flush-append done tokens token)
          ∙ tokenize_from-append done [] cs (flush tokens token))
  | inr e ↦ rw (e, tokenize_from) (tokenize_from-append done (token ++ c ∷ []) cs tokens)
]
  where
    flush-append :
        (done tokens : List (List ℕ)) (token : List ℕ)
        → flush (done ++ tokens) token ≡ done ++ flush tokens token
    flush-append done tokens [] = refl
    flush-append done tokens (x ∷ xs) = append_assoc done tokens ((x ∷ xs) ∷ [])

tokenize_from-Words :
    (token cs : List ℕ)
    → All (λ x. is_separator x ≡ false) token
    → Words (token ++ cs) (tokenize_from [] token cs)
unfolding tokenize_from
tokenize_from-Words [] [] plain = finished
tokenize_from-Words (x ∷ xs) [] plain = reads x xs [] [] plain at_end finished
tokenize_from-Words [] (c ∷ cs) plain = elim (Bool-cases (is_separator c)) [
  | inl e ↦ rw (e, tokenize_from) (skips c cs _ e (tokenize_from-Words [] cs tt))
  | inr e ↦ rw (e, tokenize_from) (tokenize_from-Words (c ∷ []) cs (e, tt))
]
tokenize_from-Words (x ∷ xs) (c ∷ cs) plain = elim (Bool-cases (is_separator c)) [
  | inl e ↦
      rw (e, tokenize_from)
        (subst (Words ((x ∷ xs) ++ c ∷ cs)) (sym (tokenize_from-append ((x ∷ xs) ∷ []) [] cs [])) (
          reads x xs (c ∷ cs) (tokenize_from [] [] cs) plain (before_separator c cs e)
            (skips c cs _ e (tokenize_from-Words [] cs tt))))
  | inr e ↦
      rw (e, tokenize_from)
        (subst (λ l. Words l (tokenize_from [] ((x ∷ xs) ++ c ∷ []) cs))
          (append_assoc (x ∷ xs) (c ∷ []) cs)
          (tokenize_from-Words ((x ∷ xs) ++ c ∷ []) cs (All-concat _ (x ∷ xs) c plain e)))
]

-- The tokens of a command line are its words, in order: the longest stretches between spaces and
-- tabs, none of them empty, however many separators stand before, between and behind them.
pub tokenize-Words : (command_line : List ℕ) → Words command_line (tokenize command_line)
unfolding tokenize
tokenize-Words command_line = tokenize_from-Words [] command_line tt
