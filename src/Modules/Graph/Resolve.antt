-- ===== src/Modules/Graph/Resolve.antt =====
-- When `Resolve` succeeds, and what it reports when it does not.
use mathlib.Core.List.{mem-append}
use mathlib.Core.List.Perm
use mathlib.Core.Logic.Or
use mathlib.Core.Option
use tge_core.Prelude.{
  ℕ, ◌<◌, ◌≡◌, ◌≢◌, refl, ◌∙◌, ap, ◌⊎◌, inl, inr, ◌↔◌, true, false, List, [], ◌∷◌, ◌++◌, some,
  arith, length, Distinct, Perm, Mem, All, All-of_mem, All-mem, Bool-cases, length-perm,
  length-append, get_or,
}
use tge_core.Modules.{Module, ModuleIds}
use tge_core.Modules.Graph.{
  unplaced, placed, stuck, resolve, report, Resolution, dependency_cycle, emitted,
}
use tge_core.Modules.Graph.Counting.{depends_on-repeats}
use native.Mathlib.Bridge.{le_prop}
use tge_core.Modules.Graph.Rounds.{Inv, IsCovered}
use tge_core.Modules.Graph.Order.{
  IsInitOrder, FitsCounter, verdict, no_errors, placing, resolve_valid, resolve_invalid,
  complete-IsInitOrder,
}
use tge_core.Modules.Graph.Cycles.{
  NoRepeats, IsCyclic, left-IsCyclic, left-nil, repeats-NoRepeats, unplaced-StillWaits,
}
use tge_core.Modules.Graph.Validation.{IsLoadable, validate_lem, validate-IsQuiet}

-- The modules of a run context can be put in order: each is loadable, none declares an ordering
-- dependency on a loaded module twice, and some order has every module behind its dependencies.
abbrev pub IsResolvable : ModuleIds → List Module → Type 0
IsResolvable ids ms =
    All (IsLoadable ids ms) ms
    × All (λ m. NoRepeats ms m.dependencies) ms
    × ((order : List Module) × IsInitOrder ms order)

-- What is reported about a context with loadable modules that has no order.
abbrev pub ReportsCycle : List Module → Resolution → Type 0
ReportsCycle ms r =
    (cycle : List Module) × (r.log ≡ dependency_cycle cycle ∷ [])
    × (cycle ≢ [])
    × Perm (r.graph.order ++ cycle) ms
    × (All (λ m. NoRepeats ms m.dependencies) ms → IsCyclic cycle)

module _ (ids : ModuleIds) (ms : List Module) (unique : Distinct (λ m. m.id) ms)
    (fits : FitsCounter ms) where
  IsLoadable-iff : ((verdict ids ms).valid ≡ true) ↔ All (IsLoadable ids ms) ms
  IsLoadable-iff =
      let both = validate_lem ids ms ms no_errors in (λ h. (both.0 h).1, λ h. both.1 (refl, h))

  quiet : (verdict ids ms).valid ≡ true → (verdict ids ms).log ≡ []
  quiet = validate-IsQuiet ids ms ms no_errors (λ _. refl)

  once_of_covered :
      (order : List Module)
      → Perm order ms
      → All (IsCovered ms) order
      → All (λ m. NoRepeats ms m.dependencies) ms
  once_of_covered order perm covered = All-of_mem ms λ m mem.
      repeats-NoRepeats ms unique m.dependencies (
        omega (
          arith,
          depends_on-repeats ms unique m,
          All-mem (λ _. le_prop) order covered ((Perm.mem_iff perm).1 mem),
        ))

  left_within :
      (order left : List Module) → Perm (order ++ left) ms → (m : Module) → Mem m left → Mem m ms
  left_within order left perm m mem = (Perm.mem_iff perm).0 (mem-append.1 (Or.inr mem))

  left_some :
      (order left : List Module) → Perm (order ++ left) ms → length order < length ms → left ≢ []
  left_some order left perm lt e =
      absurd (omega (arith, length-perm perm, length-append order left, ap length e))

  -- What holds of a result.
  pub Outcome : Resolution → Type 0
  Outcome r =
      ((r.resolved ≡ true) × IsResolvable ids ms × IsInitOrder ms r.graph.order × (r.log ≡ []))
      ⊎ ((r.resolved ≡ false)
          × (¬ IsResolvable ids ms)
          × (All (IsLoadable ids ms) ms → ReportsCycle ms r))

  placed-Outcome :
      (ok : (verdict ids ms).valid ≡ true) (order : List Module) (pending : List ℕ)
      → Inv ms order pending
      → length order ≡ length ms
      → Outcome (report (verdict ids ms) (placed order))
  unfolding Outcome
  placed-Outcome ok order pending v full =
      let init = complete-IsInitOrder ms order pending v full in
      inl (
        refl,
        (IsLoadable-iff.0 ok, once_of_covered order init.0 v.covered, (order, init)),
        init,
        quiet ok,
      )

  stuck-Outcome :
      (ok : (verdict ids ms).valid ≡ true) (order : List Module) (pending : List ℕ)
      → Inv ms order pending
      → ((j : ℕ) → j < length ms → get_or pending j emitted ≢ 0)
      → length order < length ms
      → Outcome (report (verdict ids ms) (stuck order (unplaced ms pending)))
  unfolding Outcome
  stuck-Outcome ok order pending v busy lt =
      let left = unplaced ms pending in
      let cyclic = λ (once : All (λ m. NoRepeats ms m.dependencies) ms).
        left-IsCyclic ms unique order left v.parts once
          (unplaced-StillWaits ms order ms pending v.waits busy) in
      inr (
        refl,
        λ (loadable, once, (init, sorted)).
            left_some order left v.parts lt
              (left-nil ms left init sorted (left_within order left v.parts) (cyclic once)),
        λ loadable. (
          left,
          ap (λ l. l ++ dependency_cycle left ∷ []) (quiet ok),
          left_some order left v.parts lt,
          v.parts,
          cyclic,
        ),
      )

resolve-Outcome :
    (ids : ModuleIds) (ms : List Module) (unique : Distinct (λ m. m.id) ms) (fits : FitsCounter ms)
    → (r : Resolution) × (resolve ids ms ≡ some r) × Outcome ids ms unique fits r
unfolding Outcome
resolve-Outcome ids ms unique fits = elim (Bool-cases (verdict ids ms).valid) [
  | inl ok ↦
      let end = placing ids ms unique fits in
      elim end.outcome [
        | inl (e, full) ↦ (
          report (verdict ids ms) (placed end.order),
          resolve_valid ids ms ok ∙ ap (Option.map (report (verdict ids ms))) e,
          placed-Outcome ids ms unique fits ok end.order end.pending end.inv full,
        )
        | inr (e, busy, lt) ↦ (
          report (verdict ids ms) (stuck end.order (unplaced ms end.pending)),
          resolve_valid ids ms ok ∙ ap (Option.map (report (verdict ids ms))) e,
          stuck-Outcome ids ms unique fits ok end.order end.pending end.inv busy lt,
        )
      ]
  | inr bad ↦ (
    _,
    resolve_invalid ids ms bad,
    inr (
      refl,
      λ h. cc ((IsLoadable-iff ids ms unique fits).1 h.0),
      λ h. absurd (cc ((IsLoadable-iff ids ms unique fits).1 h)),
    ),
  )
]

-- `Resolve` returns, and it returns true exactly for the run contexts that can be put in order:
-- each module is loadable, none declares an ordering dependency on a loaded module twice, and some
-- order has every module behind its dependencies. Then its order is a permutation of the modules in
-- which each stands behind every loaded module that it depends on as Required or Optional, and
-- nothing is logged. The modules have distinct ids, and each has fewer than 2^32 - 1 dependencies.
pub resolve_lem :
    (ids : ModuleIds) (ms : List Module)
    → Distinct (λ m. m.id) ms
    → FitsCounter ms
    → (r : Resolution) × (resolve ids ms ≡ some r)
      × (((r.resolved ≡ true) × IsResolvable ids ms × IsInitOrder ms r.graph.order × (r.log ≡ []))
          ⊎ ((r.resolved ≡ false) × (¬ IsResolvable ids ms)))
unfolding Outcome
resolve_lem ids ms unique fits =
    let (r, e, outcome) = resolve-Outcome ids ms unique fits in
    (r, e, elim outcome [ inl h ↦ inl h | inr h ↦ inr (h.0, h.1) ])

-- For loadable modules of which none declares an ordering dependency twice and which cannot be put
-- in order, `Resolve` returns false and logs one cycle report and nothing else. The report names
-- exactly the modules that were not placed; there are some, and each of them depends on another of
-- them or on itself. The modules have distinct ids, and each has fewer than 2^32 - 1 dependencies.
pub resolve-IsCyclic :
    (ids : ModuleIds) (ms : List Module)
    → Distinct (λ m. m.id) ms
    → FitsCounter ms
    → All (IsLoadable ids ms) ms
    → All (λ m. NoRepeats ms m.dependencies) ms
    → ¬ ((order : List Module) × IsInitOrder ms order)
    → (r : Resolution) × (resolve ids ms ≡ some r)
      × (r.resolved ≡ false)
      × ((cycle : List Module) × (r.log ≡ dependency_cycle cycle ∷ [])
          × (cycle ≢ [])
          × Perm (r.graph.order ++ cycle) ms
          × IsCyclic cycle)
unfolding Outcome
resolve-IsCyclic ids ms unique fits loadable once none' =
    let (r, e, outcome) = resolve-Outcome ids ms unique fits in
    elim outcome [
      | inl (_, (_, _, ordered), _, _) ↦ absurd (none' ordered)
      | inr (failed, _, cycles) ↦
          let (cycle, log, some', parts, cyclic) = cycles loadable in
          (r, e, failed, (cycle, log, some', parts, cyclic once))
    ]
