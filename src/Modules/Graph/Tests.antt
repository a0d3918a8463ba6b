-- ===== src/Modules/Graph/Tests.antt =====
-- Small module graphs, and the versions that they ask for.
use mathlib.Core.List.{mem-cons, not-mem-nil}
use mathlib.Core.List.Perm
use mathlib.Core.HLevel.{⊥_prop}
use mathlib.Core.Logic.Or
use tge_core.Prelude.{
  ℕ, ◌+◌, ◌≡◌, ◌≢◌, refl, sym, subst, ◌⊎◌, inr, ◌↔◌, true, false, List, [], ◌∷◌, ◌++◌, some, arith,
  All, Distinct, Perm,
}
use tge_core.Modules.Version.{Version, satisfies, is_constrained}
use tge_core.Modules.{Module, Dependency, ModuleIds, required}
use tge_core.Modules.Graph.{
  Resolution, resolve, validate, dependency_cycle, missing_dependency, depends_on, find_loaded,
}
use tge_core.Modules.Graph.Validation.{IsLoadable, validate_lem}
use tge_core.Modules.Graph.Order.{IsInitOrder, FitsCounter}
use tge_core.Modules.Graph.Cycles.{IsCyclic}
use tge_core.Modules.Graph.Resolve.{IsResolvable, resolve_lem, resolve-IsCyclic}

abbrev version : ℕ → ℕ → ℕ → Version
version major minor patch = record { major = major; minor = minor; patch = patch }

abbrev ids : ModuleIds
ids = record { version = λ _. version 1 2 0; contract_version = λ _. 1 }

abbrev on : ℕ → Dependency
on id = record { module_id = some id; kind = required; min_version = version 1 1 5 }

abbrev module_with : ℕ → List Dependency → Module
module_with id ds = record { address = 100 + id; id = id; dependencies = ds }

-- The game needs the renderer, which needs the core.
abbrev game : Module
game = module_with 3 (on 2 ∷ [])

abbrev renderer : Module
renderer = module_with 2 (on 1 ∷ [])

abbrev core : Module
core = module_with 1 []

abbrev loop : Module
loop = module_with 4 (on 4 ∷ [])

resolves_in_order :
    resolve ids (game ∷ renderer ∷ core ∷ [])
    ≡ some (record {
      graph = record { order = core ∷ renderer ∷ game ∷ [] };
      resolved = true;
      log = [];
    })
unfolding resolve is_constrained satisfies
resolves_in_order = refl

reports_missing :
    resolve ids (game ∷ renderer ∷ [])
    ≡ some (record {
      graph = record { order = [] };
      resolved = false;
      log = missing_dependency renderer 1 ∷ [];
    })
unfolding resolve is_constrained satisfies
reports_missing = refl

-- A dependency that is declared twice is counted twice and settled once.
reports_cycle_of_repeated :
    resolve ids (module_with 2 (on 1 ∷ on 1 ∷ []) ∷ core ∷ [])
    ≡ some (record {
      graph = record { order = core ∷ [] };
      resolved = false;
      log = dependency_cycle (module_with 2 (on 1 ∷ on 1 ∷ []) ∷ []) ∷ [];
    })
unfolding resolve is_constrained satisfies
reports_cycle_of_repeated = refl

chain-Distinct : Distinct (λ (m : Module). m.id) (game ∷ renderer ∷ core ∷ [])
chain-Distinct = (
  ((λ e. absurd (omega (arith, e))), ((λ e. absurd (omega (arith, e))), tt)),
  (((λ e. absurd (omega (arith, e))), tt), (tt, tt)),
)

chain-FitsCounter : FitsCounter (game ∷ renderer ∷ core ∷ [])
chain-FitsCounter = (omega arith, (omega arith, (omega arith, tt)))

resolve_lem_example :
    (r : Resolution) × (resolve ids (game ∷ renderer ∷ core ∷ []) ≡ some r)
    × (((r.resolved ≡ true)
          × IsResolvable ids (game ∷ renderer ∷ core ∷ [])
          × IsInitOrder (game ∷ renderer ∷ core ∷ []) r.graph.order
          × (r.log ≡ []))
        ⊎ ((r.resolved ≡ false) × (¬ IsResolvable ids (game ∷ renderer ∷ core ∷ []))))
resolve_lem_example = resolve_lem ids (game ∷ renderer ∷ core ∷ []) chain-Distinct chain-FitsCounter

loop-IsLoadable : IsLoadable ids (loop ∷ []) loop
unfolding find_loaded satisfies is_constrained
loop-IsLoadable = (refl, ((4, refl, inr (refl, inr refl)), tt))

loop_depends : depends_on loop loop ≡ true
unfolding depends_on
loop_depends = refl

-- A module that depends on itself comes nowhere in an order.
loop_unordered : (order : List Module) → ¬ IsInitOrder (loop ∷ []) order
loop_unordered [] (perm, _) = not-mem-nil ((Perm.mem_iff perm).1 (mem-cons.1 (Or.inl refl)))
loop_unordered (m ∷ ms) (perm, ordered) =
    let mem = (Perm.mem_iff perm).0 (mem-cons.1 (Or.inl refl)) in
    Or.elim ⊥_prop (mem-cons.0 mem)
      (λ same.
        not-mem-nil
          (ordered [] ms m m refl mem (subst (λ x. depends_on x x ≡ true) (sym same) loop_depends)))
      not-mem-nil

resolve-IsCyclic_example :
    (r : Resolution) × (resolve ids (loop ∷ []) ≡ some r)
    × (r.resolved ≡ false)
    × ((cycle : List Module) × (r.log ≡ dependency_cycle cycle ∷ [])
        × (cycle ≢ [])
        × Perm (r.graph.order ++ cycle) (loop ∷ [])
        × IsCyclic cycle)
resolve-IsCyclic_example =
    resolve-IsCyclic ids (loop ∷ []) (tt, tt) (omega arith, tt) (loop-IsLoadable, tt)
      (((λ d m e. refl), tt), tt) (λ (order, init). loop_unordered order init)

validate_lem_example :
    ((validate ids (loop ∷ []) (loop ∷ []) (record { valid = true; log = [] })).valid ≡ true)
    ↔ ((true ≡ true) × All (IsLoadable ids (loop ∷ [])) (loop ∷ []))
validate_lem_example = validate_lem ids (loop ∷ []) (loop ∷ []) (record { valid = true; log = [] })
