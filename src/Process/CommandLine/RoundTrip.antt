-- ===== src/Process/CommandLine/RoundTrip.antt =====
-- A command line read by the documented rules.
use mathlib.Core.Path.{ap₂}
use mathlib.Core.List.{append-nil, append_assoc}
use tge_core.Prelude.{
  ℕ, ◌≡◌, ◌≢◌, refl, ◌∙◌, ap, sym, subst, inl, inr, false, not, ◌&&◌, List, [], ◌∷◌, ◌++◌, any,
  arith, Bool-cases, All, ne→==_false,
}
use tge_core.Process.CommandLine.{
  quote, space, is_to_quote, is_empty, append_quoted, append_argument, append_arguments,
  build_command_line,
}
use tge_core.Process.CommandLine.Reading.{
  is_blank, before, read_argument, Splits, finished, skips, reads, read_name, read_program,
}
use tge_core.Process.CommandLine.Quoting.{
  StartsBlank, at_end, at_space, read_argument-double, read_argument-append_quoted,
  read_argument-unquoted,
}

-- What is appended for one argument.
abbrev text_of : List ℕ → List ℕ
text_of argument = append_argument [] argument

append_argument-text_of :
    (line argument : List ℕ) → append_argument line argument ≡ line ++ text_of argument
unfolding append_argument
append_argument-text_of line argument =
    elim (Bool-cases (not (is_empty argument) && not (any is_to_quote argument))) [
      | inl e ↦ rw e refl
      | inr e ↦ rw e refl
    ]

text_of-reads :
    (argument t : List ℕ)
    → StartsBlank t
    → (c : ℕ) × (cs : List ℕ) × (text_of argument ++ t ≡ c ∷ cs)
      × (is_blank c ≡ false)
      × (read_argument false 0 (c ∷ cs) ≡ (argument, t))
unfolding append_argument
text_of-reads [] t b = (
  quote,
  quote ∷ t,
  refl,
  refl,
  read_argument-double false 0 (quote ∷ t) ∙ read_argument-append_quoted 0 [] t b,
)
text_of-reads (c ∷ cs) t b = elim (Bool-cases (any is_to_quote (c ∷ cs))) [
  | inl e ↦ (
    quote,
    append_quoted 0 (c ∷ cs) ++ t,
    rw e refl,
    refl,
    read_argument-double false 0 (append_quoted 0 (c ∷ cs) ++ t)
        ∙ read_argument-append_quoted 0 (c ∷ cs) t b,
  )
  | inr e ↦ (c, cs ++ t, rw e refl, ground arith, read_argument-unquoted 0 (c ∷ cs) t e b)
]

-- What is appended for all of them.
abbrev tail_of : List (List ℕ) → List ℕ
tail_of [] = []
tail_of (argument ∷ arguments) = space ∷ (text_of argument ++ tail_of arguments)

append_arguments-tail_of :
    (line : List ℕ) (arguments : List (List ℕ))
    → append_arguments line arguments ≡ line ++ tail_of arguments
unfolding append_arguments
append_arguments-tail_of line [] = sym (append-nil line)
append_arguments-tail_of line (argument ∷ arguments) =
    append_arguments-tail_of (append_argument (line ++ space ∷ []) argument) arguments
    ∙ ap (λ l. l ++ tail_of arguments) (append_argument-text_of (line ++ space ∷ []) argument)
    ∙ append_assoc (line ++ space ∷ []) (text_of argument) (tail_of arguments)
    ∙ append_assoc line (space ∷ []) (text_of argument ++ tail_of arguments)

tail_of-StartsBlank : (arguments : List (List ℕ)) → StartsBlank (tail_of arguments)
tail_of-StartsBlank [] = at_end
tail_of-StartsBlank (argument ∷ arguments) = at_space (text_of argument ++ tail_of arguments)

tail_of-Splits : (arguments : List (List ℕ)) → Splits (tail_of arguments) arguments
tail_of-Splits [] = finished
tail_of-Splits (argument ∷ arguments) =
    let (c, cs, same, plain, read) =
      text_of-reads argument (tail_of arguments) (tail_of-StartsBlank arguments) in
    skips space (text_of argument ++ tail_of arguments) (argument ∷ arguments) refl (
      subst (λ l. Splits l (argument ∷ arguments)) (sym same)
        (reads c cs argument (tail_of arguments) arguments plain read (tail_of-Splits arguments)))

read_name-append :
    (program t : List ℕ)
    → All (λ c. c ≢ quote) program
    → read_name (program ++ quote ∷ t) ≡ (program, t)
unfolding read_name
read_name-append [] t h = refl
read_name-append (c ∷ cs) t h =
    rw (ne→==_false c quote h.0) (ap (before (c ∷ [])) (read_name-append cs t h.1))

build_command_line-tail_of :
    (program : List ℕ) (arguments : List (List ℕ))
    → build_command_line program arguments ≡ quote ∷ (program ++ quote ∷ tail_of arguments)
unfolding build_command_line
build_command_line-tail_of program arguments =
    append_arguments-tail_of ((quote ∷ program) ++ quote ∷ []) arguments
    ∙ append_assoc (quote ∷ program) (quote ∷ []) (tail_of arguments)

-- A command line that is read by the documented rules gives back the program's name and then, from
-- the text behind it, exactly the arguments that it was built from, whatever characters these hold.
-- The program's name holds no quote.
pub build_command_line_lem :
    (program : List ℕ) (arguments : List (List ℕ))
    → All (λ c. c ≢ quote) program
    → ((read_program (build_command_line program arguments)).0 ≡ program)
      × Splits (read_program (build_command_line program arguments)).1 arguments
build_command_line_lem program arguments h =
    let read =
      ap read_program (build_command_line-tail_of program arguments)
      ∙ read_name-append program (tail_of arguments) h in
    (
      ap (λ r. r.0) read,
      subst (λ t. Splits t arguments) (sym (ap (λ r. r.1) read)) (tail_of-Splits arguments),
    )

-- The rules read a text in one way only.
Splits-unique : {t : List ℕ} {xs ys : List (List ℕ)} → Splits t xs → Splits t ys → xs ≡ ys
Splits-unique finished finished = refl
Splits-unique (skips c cs xs b s) (skips _ _ ys b' s') = Splits-unique s s'
Splits-unique (skips c cs xs b s) (reads _ _ argument rest ys b' e s') = cc
Splits-unique (reads c cs argument rest xs b e s) (skips _ _ ys b' s') = cc
Splits-unique (reads c cs argument rest xs b e s) (reads _ _ argument' rest' ys b' e' s') =
    let same = sym e ∙ e' in
    ap₂ ◌∷◌ (ap (λ r. r.0) same)
      (Splits-unique (subst (λ t. Splits t xs) (ap (λ r. r.1) same) s) s')

-- Different lists of arguments make different command lines of one program, so no argument can pass
-- for several or for another. The program's name holds no quote.
pub build_command_line_injective :
    (program : List ℕ) (xs ys : List (List ℕ))
    → All (λ c. c ≢ quote) program
    → build_command_line program xs ≡ build_command_line program ys
    → xs ≡ ys
build_command_line_injective program xs ys h e =
    Splits-unique (build_command_line_lem program xs h).1 (
      subst (λ line. Splits (read_program line).1 ys) (sym e)
        (build_command_line_lem program ys h).1)
