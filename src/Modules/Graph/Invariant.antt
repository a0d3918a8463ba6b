-- ===== src/Modules/Graph/Invariant.antt =====
-- What one round of the placement loop keeps.
use mathlib.Core.List.Perm
use tge_core.Prelude.{
  ℕ, zero, suc, ◌+◌, ◌<◌, ◌≡◌, refl, ◌⊎◌, inl, inr, true, ◌==◌, List, [], ◌∷◌, ◌++◌, some, arith,
  count_if, Perm, set, get_or, get_elem?, count_if-append, Bool-cases,
}
use tge_core.Modules.{Module}
use tge_core.Modules.Graph.{emitted, depends_on, blocks, settle, unplaced}

-- Two lists of the same length, with a relation between their entries.
abbrev pub All₂ : (Module → ℕ → Type 0) → List Module → List ℕ → Type 0
All₂ P [] [] = Unit
All₂ P [] (p ∷ ps) = ⊥
All₂ P (m ∷ ms) [] = ⊥
All₂ P (m ∷ ms) (p ∷ ps) = P m p × All₂ P ms ps

pub All₂-map :
    {P Q : Module → ℕ → Type 0}
    → ((m : Module) (p : ℕ) → P m p → Q m p)
    → (ms : List Module) (ps : List ℕ) → All₂ P ms ps
    → All₂ Q ms ps
All₂-map f [] [] h = tt
All₂-map f [] (p ∷ ps) h = absurd h
All₂-map f (m ∷ ms) [] h = absurd h
All₂-map f (m ∷ ms) (p ∷ ps) h = (f m p h.0, All₂-map f ms ps h.1)

-- What a module still waits for: its dependencies less those placed.
abbrev pub Waits : List Module → List Module → Module → ℕ → Type 0
Waits all order m p =
    (p ≡ emitted)
    ⊎ ((p < emitted) × (p + count_if (depends_on m) order ≡ count_if (blocks all) m.dependencies))

-- Enough is left for a module that depends on the next one to be placed.
abbrev pub CanSettle : Module → Module → ℕ → Type 0
CanSettle next m p = (p ≡ emitted) ⊎ ((p < emitted) × (depends_on m next ≡ true → 0 < p))

pub settle-unplaced :
    (next : Module) (ms : List Module) (ps : List ℕ)
    → All₂ (CanSettle next) ms ps
    → unplaced ms (settle next ms ps) ≡ unplaced ms ps
unfolding settle unplaced
settle-unplaced next [] [] h = refl
settle-unplaced next [] (p ∷ ps) h = absurd h
settle-unplaced next (m ∷ ms) [] h = absurd h
settle-unplaced next (m ∷ ms) (p ∷ ps) h = ground (arith, settle-unplaced next ms ps h.1)

pub settle-Waits :
    (all order : List Module) (next : Module) (ms : List Module) (ps : List ℕ)
    → All₂ (Waits all order) ms ps
    → All₂ (CanSettle next) ms ps
    → All₂ (Waits all (order ++ next ∷ [])) ms (settle next ms ps)
unfolding settle
settle-Waits all order next [] [] h k = tt
settle-Waits all order next [] (p ∷ ps) h k = absurd h
settle-Waits all order next (m ∷ ms) [] h k = absurd h
settle-Waits all order next (m ∷ ms) (p ∷ ps) h k = (
  ground (arith, count_if-append (depends_on m) order (next ∷ [])),
  settle-Waits all order next ms ps h.1 k.1,
)

-- Marking the next module as placed takes it out of what is left.
pub set-unplaced :
    (ms : List Module) (ps : List ℕ) (i : ℕ) (m : Module)
    → get_elem? ms i ≡ some m
    → get_or ps i emitted ≡ 0
    → Perm (unplaced ms ps) (m ∷ unplaced ms (set ps i emitted))
unfolding unplaced
set-unplaced [] ps i m g z = cc
set-unplaced (x ∷ ms) [] i m g z = absurd (omega arith)
set-unplaced (x ∷ ms) (p ∷ ps) zero m g z = rw z (Perm.cons' (ground arith) Perm.rfl)
set-unplaced (x ∷ ms) (p ∷ ps) (suc i) m g z = elim (Bool-cases (p == emitted)) [
  | inl e ↦ rw (e, unplaced) (set-unplaced ms ps i m g z)
  | inr e ↦
      rw (e, unplaced) (Perm.trans (Perm.cons x (set-unplaced ms ps i m g z)) (Perm.swap m x _))
]

pub set-Waits :
    (all order ms : List Module) (ps : List ℕ) (i : ℕ)
    → All₂ (Waits all order) ms ps
    → All₂ (Waits all order) ms (set ps i emitted)
set-Waits all order [] [] i h = tt
set-Waits all order [] (p ∷ ps) i h = absurd h
set-Waits all order (m ∷ ms) [] i h = absurd h
set-Waits all order (m ∷ ms) (p ∷ ps) zero h = (inl refl, h.1)
set-Waits all order (m ∷ ms) (p ∷ ps) (suc i) h = (h.0, set-Waits all order ms ps i h.1)

-- The entry that the scan found belongs to a module that waits for nothing.
pub Waits-at :
    (all order ms : List Module) (ps : List ℕ) (i : ℕ) (m : Module)
    → All₂ (Waits all order) ms ps
    → get_elem? ms i ≡ some m
    → get_or ps i emitted ≡ 0
    → count_if (depends_on m) order ≡ count_if (blocks all) m.dependencies
Waits-at all order [] ps i m h g z = cc
Waits-at all order (x ∷ ms) [] i m h g z = absurd h
Waits-at all order (x ∷ ms) (p ∷ ps) zero m h g z = ground arith
Waits-at all order (x ∷ ms) (p ∷ ps) (suc i) m h g z = Waits-at all order ms ps i m h.1 g z
