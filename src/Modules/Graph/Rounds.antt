-- ===== src/Modules/Graph/Rounds.antt =====
-- One round of the placement loop, and the loop.
use mathlib.Core.List.{mem-append, append_assoc}
use mathlib.Core.List.Perm
use mathlib.Core.Logic.Or
use mathlib.Core.Logic.{∥∥₁_prop}
use tge_core.Prelude.{
  ℕ, zero, suc, ◌+◌, ◌≤◌, ◌<◌, ◌≡◌, refl, ◌⊎◌, inl, inr, true, List, [], ◌∷◌, ◌++◌, Option, none,
  some, arith, length, count_if, Distinct, Mem, Perm, set, get_or, get_elem?, count_if-append,
  count_if-perm, count_if_pos, length-append, split-concat, get_elem?-lt, All, All-concat, ltb,
}
use tge_core.Modules.{Module}
use tge_core.Modules.Graph.{
  emitted, depends_on, blocks, settle, unplaced, place_all, placed, stuck, Placement,
}
use tge_core.Modules.Graph.Counting.{depends_on-count}
use tge_core.Modules.Graph.Ready.{next_ready_cases, NoneReady}
use tge_core.Modules.Graph.Invariant.{
  All₂, All₂-map, Waits, CanSettle, settle-unplaced, settle-Waits, set-unplaced, set-Waits,
  Waits-at,
}

-- Whatever a placed module depends on stands before it.
abbrev pub IsOrdered : List Module → List Module → Type 0
IsOrdered all order =
    (xs ys : List Module) (m d : Module)
    → order ≡ xs ++ m ∷ ys
    → Mem d all
    → depends_on m d ≡ true
    → Mem d xs

-- All that blocks the module is among the modules that it depends on, each once.
abbrev pub IsCovered : List Module → Module → Type 0
IsCovered all m = count_if (blocks all) m.dependencies ≤ count_if (depends_on m) all

pub record Inv (all order : List Module) (pending : List ℕ) : Type 0 where
  pub waits : All₂ (Waits all order) all pending
  pub parts : Perm (order ++ unplaced all pending) all
  pub ordered : IsOrdered all order
  pub covered : All (IsCovered all) order

module _ (all : List Module) (unique : Distinct (λ m. m.id) all) where
  -- A module that is still to be placed can be settled against the next one.
  Waits-CanSettle :
      (order rest : List Module) (next : Module)
      → Perm (order ++ next ∷ rest) all
      → (m : Module) (p : ℕ) → Waits all order m p
      → CanSettle next m p
  Waits-CanSettle order rest next perm m p (inl e) = inl e
  Waits-CanSettle order rest next perm m p (inr (lt, e)) = inr (
    lt,
    λ d. ground (
      arith,
      depends_on-count m all unique,
      count_if-perm (depends_on m) perm,
      count_if-append (depends_on m) order (next ∷ rest),
    ),
  )

  -- What the next module depends on has been placed.
  placed_before :
      (order rest : List Module) (next d : Module)
      → Perm (order ++ next ∷ rest) all
      → count_if (depends_on next) order ≡ count_if (blocks all) next.dependencies
      → Mem d all
      → depends_on next d ≡ true
      → Mem d order
  placed_before order rest next d perm full m e =
      Or.elim ∥∥₁_prop (mem-append.0 ((Perm.mem_iff perm).1 m)) (λ h. h)
        (λ h. absurd (
          omega (
            arith,
            depends_on-count next all unique,
            count_if-perm (depends_on next) perm,
            count_if-append (depends_on next) order (next ∷ rest),
            count_if_pos (depends_on next) d (next ∷ rest) h e,
          )))

  round-Inv :
      (order : List Module) (pending : List ℕ) (i : ℕ) (next : Module)
      → Inv all order pending
      → get_elem? all i ≡ some next
      → get_or pending i emitted ≡ 0
      → Inv all (order ++ next ∷ []) (settle next all (set pending i emitted))
  round-Inv order pending i next v g z = record {
    waits = settle-Waits all order next all marked waits' settles;
    parts =
        rw (settle-unplaced next all marked settles)
          (rw (append_assoc order (next ∷ []) rest) perm);
    ordered = λ xs ys m d e mem dep. elim (split-concat order xs ys next m e) [
      | inl (p, q) ↦ rw p (
          placed_before order rest next d perm (Waits-at all order all pending i next v.waits g z)
            mem (rw q at dep))
      | inr (zs, p) ↦ v.ordered xs zs m d p mem dep
    ];
    covered = All-concat (IsCovered all) order next v.covered (
        omega (
          arith,
          count_if-perm (depends_on next) perm,
          count_if-append (depends_on next) order (next ∷ rest),
          Waits-at all order all pending i next v.waits g z,
        ));
  }
    where
      marked : List ℕ
      marked = set pending i emitted

      rest : List Module
      rest = unplaced all marked

      waits' : All₂ (Waits all order) all marked
      waits' = set-Waits all order all pending i v.waits

      perm : Perm (order ++ next ∷ rest) all
      perm =
          Perm.trans
            (Perm.append (Perm.refl order) (Perm.symm (set-unplaced all pending i next g z)))
            v.parts

      settles : All₂ (CanSettle next) all marked
      settles = All₂-map (Waits-CanSettle order rest next perm) all marked waits'

  -- How the loop ends: with everything placed, or with nothing ready.
  pub record Ending (result : Option Placement) : Type 0 where
    pub order : List Module
    pub pending : List ℕ
    pub inv : Inv all order pending
    pub outcome :
        ((result ≡ some (placed order)) × (length order ≡ length all))
        ⊎ ((result ≡ some (stuck order (unplaced all pending)))
            × NoneReady pending (length all)
            × (length order < length all))

  -- With a round for each module still to be placed the loop ends.
  pub place_all-Ending :
      (fuel : ℕ) (order : List Module) (pending : List ℕ)
      → length order + fuel ≡ length all
      → Inv all order pending
      → Ending (place_all all fuel order pending)
  unfolding place_all
  place_all-Ending zero order pending e v = record {
    order = order;
    pending = pending;
    inv = v;
    outcome = inl (ground arith, omega arith);
  }
  place_all-Ending (suc fuel) order pending e v =
      let more : ltb (length order) (length all) ≡ true = ground arith in
      rw (more, place_all)
        (elim (next_ready_cases (length all) pending none) [
          | inl (busy, ne) ↦
              rw (ne, place_all)
                (record {
                  order = order;
                  pending = pending;
                  inv = v;
                  outcome = inr (refl, busy, omega arith);
                })
          | inr (i, (lt, z, first), ne) ↦
              let (next, g) = get_elem?-lt all i lt in
              rw (ne, place_all)
                (rw (g, place_all)
                  (place_all-Ending fuel (order ++ next ∷ [])
                    (settle next all (set pending i emitted))
                    (omega (arith, length-append order (next ∷ [])))
                    (round-Inv order pending i next v g z)))
        ])
