-- ===== src/Command/Dispatch.antt =====
-- Which callback a command line reaches.
use mathlib.Core.Path.{ap₂}
use tge_core.Prelude.{
  ℕ, ◌==◌, ◌≡◌, refl, ◌∙◌, ap, sym, inl, inr, ◌⊎◌, Bool, true, false, List, [], ◌∷◌, ◌++◌,
  if◌then◌else◌, arith, Bool-cases, Option-cases, none, some, All, ==_iff, ==_refl,
}
use tge_core.Command.{
  same_text, Entry, Group, find_command, set_command, register_command, Call, tokenize,
  execute_from, execute,
}

same_text_eq : (xs ys : List ℕ) → same_text xs ys ≡ true → xs ≡ ys
unfolding same_text
same_text_eq [] [] e = refl
same_text_eq [] (y ∷ ys) e = cc
same_text_eq (x ∷ xs) [] e = cc
same_text_eq (x ∷ xs) (y ∷ ys) e = elim (Bool-cases (x == y)) [
  | inl h ↦ ap₂ ◌∷◌ ((==_iff x y).0 h) (same_text_eq xs ys (ground arith))
  | inr h ↦ absurd (ground arith)
]

same_text_refl : (xs : List ℕ) → same_text xs xs ≡ true
unfolding same_text
same_text_refl [] = refl
same_text_refl (x ∷ xs) = rw (==_refl x) (same_text_refl xs)

find_command-set_command :
    (es : List Entry) (name verb : List ℕ) (callback : ℕ)
    → find_command (set_command es name callback) verb
      ≡ (if same_text name verb then some callback else find_command es verb)
unfolding find_command set_command
find_command-set_command [] name verb callback = refl
find_command-set_command (e ∷ es) name verb callback = elim (Bool-cases (same_text e.verb name)) [
  | inl here ↦
      let same : same_text e.verb verb ≡ same_text name verb =
        ap (λ t. same_text t verb) (same_text_eq e.verb name here) in
      rw (here, find_command, same)
        (elim (Bool-cases (same_text name verb)) [ inl h ↦ rw h refl | inr h ↦ rw h refl ])
  | inr other ↦ elim (Bool-cases (same_text e.verb verb)) [
    | inl h ↦
        let apart : same_text name verb ≡ false = elim (Bool-cases (same_text name verb)) [
          | inl k ↦ absurd (
              cc (
                other,
                sym (same_text_refl name),
                ap (λ t. same_text t name)
                    (same_text_eq e.verb verb h ∙ sym (same_text_eq name verb k)),
              ))
          | inr k ↦ k
        ] in
        rw (other, find_command, h, apart) refl
    | inr h ↦ rw (other, find_command, h) (find_command-set_command es name verb callback)
  ]
]

-- After a registration the group answers to the verb with the new callback, also where it answered
-- to it before, and to every other verb as before.
pub register_command_lem :
    (g : Group) (name verb : List ℕ) (callback : ℕ)
    → find_command (register_command g name callback).commands verb
      ≡ (if same_text name verb then some callback else find_command g.commands verb)
unfolding register_command
register_command_lem g name verb callback = find_command-set_command g.commands name verb callback

execute_from-done :
    (gs : List Group) (verb : List ℕ) (tokens : List (List ℕ)) (calls : List Call)
    → execute_from gs verb tokens true calls ≡ (true, calls)
unfolding execute_from
execute_from-done [] verb tokens calls = refl
execute_from-done (g ∷ gs) verb tokens calls = execute_from-done gs verb tokens calls

-- No group has the verb.
abbrev pub AreSilent : List ℕ → List Group → Type 0
AreSilent verb = All (λ g. find_command g.commands verb ≡ none)

-- The groups of which the first that has the verb answers.
pub record Claimed (groups : List Group) (verb : List ℕ) (callback : ℕ) : Type 0 where
  pub silent : List Group
  pub group : Group
  pub others : List Group
  pub parts : groups ≡ silent ++ group ∷ others
  pub passed : AreSilent verb silent
  pub answers : find_command group.commands verb ≡ some callback

-- What a run has to be.
abbrev pub IsRun : List Group → List ℕ → List (List ℕ) → Bool × List Call → Type 0
IsRun groups verb tokens r =
    (AreSilent verb groups × (r ≡ (false, [])))
    ⊎ ((callback : ℕ) × Claimed groups verb callback
        × (r ≡ (true, record { callback = callback; arguments = tokens } ∷ [])))

execute_from-skip :
    (g : Group) (gs : List Group) (verb : List ℕ) (tokens : List (List ℕ))
    → find_command g.commands verb ≡ none
    → execute_from (g ∷ gs) verb tokens false [] ≡ execute_from gs verb tokens false []
unfolding execute_from
execute_from-skip g gs verb tokens e = rw e refl

execute_from-take :
    (g : Group) (gs : List Group) (verb : List ℕ) (tokens : List (List ℕ)) (callback : ℕ)
    → find_command g.commands verb ≡ some callback
    → execute_from (g ∷ gs) verb tokens false []
      ≡ (true, record { callback = callback; arguments = tokens } ∷ [])
unfolding execute_from
execute_from-take g gs verb tokens callback e = rw e (execute_from-done gs verb tokens _)

execute_from-IsRun :
    (gs : List Group) (verb : List ℕ) (tokens : List (List ℕ))
    → IsRun gs verb tokens (execute_from gs verb tokens false [])
unfolding execute_from
execute_from-IsRun [] verb tokens = inl (tt, refl)
execute_from-IsRun (g ∷ gs) verb tokens = elim (Option-cases (find_command g.commands verb)) [
  | inl absent ↦ elim (execute_from-IsRun gs verb tokens) [
    | inl (silent, e) ↦ inl ((absent, silent), execute_from-skip g gs verb tokens absent ∙ e)
    | inr (callback, c, e) ↦ inr (
      callback,
      record {
        silent = g ∷ c.silent;
        group = c.group;
        others = c.others;
        parts = ap (λ l. g ∷ l) c.parts;
        passed = (absent, c.passed);
        answers = c.answers;
      },
      execute_from-skip g gs verb tokens absent ∙ e,
    )
  ]
  | inr (callback, found) ↦ inr (
    callback,
    record { silent = []; group = g; others = gs; parts = refl; passed = tt; answers = found },
    execute_from-take g gs verb tokens callback found,
  )
]

-- A command line whose first token is a verb makes exactly one call, that of the first group that
-- has the verb, with all tokens, and returns true; if no group has it, it makes no call and returns
-- false.
pub execute_lem :
    (groups : List Group) (command_line verb : List ℕ) (arguments : List (List ℕ))
    → tokenize command_line ≡ verb ∷ arguments
    → IsRun groups verb (verb ∷ arguments) (execute groups command_line)
unfolding execute
execute_lem groups command_line verb arguments e =
    rw (e, execute) (execute_from-IsRun groups verb (verb ∷ arguments))
