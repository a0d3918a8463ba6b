-- ===== src/Modules/Graph/Cycles.antt =====
-- When `Resolve` fails: a cycle among the modules that it names, or a dependency declared twice.
use mathlib.Core.List.{mem-append, mem-cons_self, append-nil, append_assoc}
use mathlib.Core.List.Perm
use mathlib.Core.Logic.Or
use mathlib.Core.Logic.{∥∥₁_elim}
use mathlib.Core.HLevel.{¬_prop, ⊥_prop}
use native.Mathlib.Nat.{ℕ_set}
use tge_core.Prelude.{
  ℕ, suc, ◌<◌, ◌≡◌, refl, ◌∙◌, sym, subst, inl, inr, true, false, ◌&&◌, List, [], ◌∷◌, ◌++◌, arith,
  length, count_if, Distinct, Perm, Mem, All, All-of_mem, All-mem, All-map, All-zip, All-concat,
  All-pick, Bool-cases, count_if-append, count_if-perm, count_if_zero, count_if_pos, find_of_count,
  any, ◌==◌,
}
use tge_core.Modules.{Module, Dependency}
use tge_core.Modules.Graph.{emitted, depends_on, blocks, unplaced}
use tge_core.Modules.Graph.Counting.{orders_after, repeats, depends_on-repeats}
use tge_core.Modules.Graph.Ready.{NoneReady}
use tge_core.Modules.Graph.Invariant.{All₂, Waits}
use tge_core.Modules.Graph.Rounds.{IsOrdered}
use tge_core.Modules.Graph.Order.{IsInitOrder}

-- No loaded module is named by two ordering dependencies.
abbrev pub NoRepeats : List Module → List Dependency → Type 0
NoRepeats ms [] = Unit
NoRepeats ms (x ∷ xs) =
    ((d : Module) → Mem d ms → orders_after d x ≡ true → any (orders_after d) xs ≡ false)
    × NoRepeats ms xs

module _ (ms : List Module) (unique : Distinct (λ m. m.id) ms) where
  NoRepeats-repeats : (xs : List Dependency) → NoRepeats ms xs → repeats ms unique xs ≡ 0
  NoRepeats-repeats [] h = refl
  NoRepeats-repeats (x ∷ xs) h = omega (
    arith,
    count_if_zero (λ d. orders_after d x && any (orders_after d) xs) ms (All-of_mem ms apart),
    NoRepeats-repeats xs h.1,
  )
    where
      apart : (d : Module) → Mem d ms → (orders_after d x && any (orders_after d) xs) ≡ false
      apart d m = elim (Bool-cases (orders_after d x)) [
        | inl e ↦ rw e (h.0 d m e)
        | inr e ↦ rw e refl
      ]

  pub repeats-NoRepeats : (xs : List Dependency) → repeats ms unique xs ≡ 0 → NoRepeats ms xs
  repeats-NoRepeats [] h = tt
  repeats-NoRepeats (x ∷ xs) h = (
    λ d m e. elim (Bool-cases (any (orders_after d) xs)) [
      | inl f ↦ absurd (
          omega (
            arith,
            count_if_pos (λ d. orders_after d x && any (orders_after d) xs) d ms m (rw (e, f) refl),
          ))
      | inr f ↦ f
    ],
    repeats-NoRepeats xs (omega arith),
  )

-- A module that is left waits for more than has been placed.
abbrev pub StillWaits : List Module → List Module → Module → Type 0
StillWaits all order m = count_if (depends_on m) order < count_if (blocks all) m.dependencies

pub unplaced-StillWaits :
    (all order ms : List Module) (ps : List ℕ)
    → All₂ (Waits all order) ms ps
    → NoneReady ps (length ms)
    → All (StillWaits all order) (unplaced ms ps)
unfolding unplaced
unplaced-StillWaits all order [] [] h busy = tt
unplaced-StillWaits all order [] (p ∷ ps) h busy = absurd h
unplaced-StillWaits all order (m ∷ ms) [] h busy = absurd h
unplaced-StillWaits all order (m ∷ ms) (p ∷ ps) h busy =
    let rest = unplaced-StillWaits all order ms ps h.1 (λ j lt. busy (suc j) (omega arith)) in
    elim (Bool-cases (p == emitted)) [
      | inl e ↦ rw (e, unplaced) rest
      | inr e ↦ rw (e, unplaced) (ground (arith, busy 0 (omega arith)), rest)
    ]

-- Every module of a list depends on a module of the list.
abbrev pub IsCyclic : List Module → Type 0
IsCyclic cycle = All (λ m. (d : Module) × Mem d cycle × (depends_on m d ≡ true)) cycle

module _ (ms : List Module) (unique : Distinct (λ m. m.id) ms) where
  -- What is left when nothing is ready is a cycle, if no dependency is declared twice.
  pub left-IsCyclic :
      (order left : List Module)
      → Perm (order ++ left) ms
      → All (λ m. NoRepeats ms m.dependencies) ms
      → All (StillWaits ms order) left
      → IsCyclic left
  left-IsCyclic order left perm once still = All-zip found left still once'
    where
      once' : All (λ m. repeats ms unique m.dependencies ≡ 0) left
      once' = All-of_mem left λ m mem.
          All-mem (λ _. ℕ_set _ _) ms
            (All-map (λ m h. NoRepeats-repeats ms unique m.dependencies h) ms once)
            ((Perm.mem_iff perm).0 (mem-append.1 (Or.inr mem)))

      found :
          (m : Module)
          → StillWaits ms order m
          → repeats ms unique m.dependencies ≡ 0
          → (d : Module) × Mem d left × (depends_on m d ≡ true)
      found m h once = find_of_count (depends_on m) left (
          omega (
            arith,
            depends_on-repeats ms unique m,
            count_if-perm (depends_on m) perm,
            count_if-append (depends_on m) order left,
          ))

-- Going through an order, no module is found in a cycle: what it depends on there came before.
outside_cycle :
    (ms cycle order : List Module)
    → IsOrdered ms order
    → ((m : Module) → Mem m cycle → Mem m ms)
    → IsCyclic cycle
    → (xs ys : List Module) → order ≡ xs ++ ys
    → All (λ m. ¬ Mem m cycle) xs
    → All (λ m. ¬ Mem m cycle) order
outside_cycle ms cycle order sorted within c xs [] e h =
    subst (All (λ m. ¬ Mem m cycle)) (sym (e ∙ append-nil xs)) h
outside_cycle ms cycle order sorted within c xs (y ∷ ys) e h =
    outside_cycle ms cycle order sorted within c (xs ++ y ∷ []) ys
      (e ∙ sym (append_assoc xs (y ∷ []) ys)) (All-concat (λ m. ¬ Mem m cycle) xs y h new)
  where
    new : ¬ Mem y cycle
    new mem =
        ∥∥₁_elim (All-pick _ cycle c mem) ⊥_prop
          λ (d, md, dep). All-mem (λ _. ¬_prop) xs h (sorted xs ys y d e (within d md) dep) md

-- Where an order exists, nothing is left over when nothing is ready.
pub left-nil :
    (ms left order : List Module)
    → IsInitOrder ms order
    → ((m : Module) → Mem m left → Mem m ms)
    → IsCyclic left
    → left ≡ []
left-nil ms [] order v within c = refl
left-nil ms (m ∷ left) order (perm, sorted) within c = absurd (
    All-mem (λ _. ¬_prop) order (outside_cycle ms (m ∷ left) order sorted within c [] order refl tt)
      ((Perm.mem_iff perm).1 (within m mem-cons_self)) mem-cons_self)
