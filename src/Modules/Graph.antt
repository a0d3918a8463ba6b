-- ===== src/Modules/Graph.antt =====
-- private/module/module_graph.cpp: the order in which the modules of a run context initialize.
-- `std::vector<uint32_t> pending` is a list of numbers below 2 ^ 32. The log is the list of the
-- errors that the code reports, in its order.
pub mod Counting
pub mod Ready
pub mod Invariant
pub mod Rounds
pub mod Order
pub mod Cycles
pub mod Validation
pub mod Resolve
mod Tests
use tge_core.Prelude.{
  ℕ, zero, suc, ◌+◌, ◌-◌, ◌%◌, ◌^◌, ◌==◌, ltb, Bool, true, false, not, ◌&&◌, ◌||◌, if◌then◌else◌,
  List, [], ◌∷◌, ◌++◌, Option, none, some, length, get_elem?, get_or, set, any,
}
use mathlib.Core.Option
use tge_core.Prelude.Words.{u32_mod}
use tge_core.Modules.Version.{satisfies, is_constrained}
use tge_core.Modules.{
  Module, Dependency, DependencyKind, ModuleIds, required, optional, notify,
  module_contract_version,
}

-- Marks a module that is already placed.
abbrev pub emitted : ℕ
emitted = 2 ^ 32 - 1

pub data GraphError : Type 0 where
  contract_mismatch : Module → GraphError
  null_dependency : Module → GraphError
  missing_dependency : Module → ℕ → GraphError
  version_conflict : Module → ℕ → GraphError
  dependency_cycle : List Module → GraphError

-- `pModule == pId`, for a pointer that may be null and one that is not.
abbrev pub points_to : Option ℕ → ℕ → Bool
points_to none id = false
points_to (some a) id = a == id

pub find_loaded : List Module → Option ℕ → Option Module
find_loaded [] module_id = none
find_loaded (m ∷ ms) module_id =
    if points_to module_id m.id then some m else find_loaded ms module_id

abbrev pub is_found : Option Module → Bool
is_found none = false
is_found (some m) = true

abbrev pub is_ordering_dependency : DependencyKind → Bool
is_ordering_dependency required = true
is_ordering_dependency optional = true
is_ordering_dependency notify = false

abbrev pub is_required : DependencyKind → Bool
is_required required = true
is_required optional = false
is_required notify = false

-- The accumulated `valid`, and the errors reported so far.
pub record Verdict : Type 0 where
  pub valid : Bool
  pub log : List GraphError

abbrev pub fail : Verdict → GraphError → Verdict
fail v e = record { valid = false; log = v.log ++ e ∷ [] }

module _ (ids : ModuleIds) where
  pub validate_contract : Module → Verdict → Verdict
  validate_contract m v =
      if ids.contract_version m.id == module_contract_version
      then v
      else fail v (contract_mismatch m)

  -- One round of the loop over the dependencies.
  pub validate_dependency : List Module → Module → Dependency → Verdict → Verdict
  validate_dependency ms m d v = elim d.module_id [
    | none ↦ fail v (null_dependency m)
    | some id ↦
        if not (is_found (find_loaded ms (some id)))
        then if is_required d.kind then fail v (missing_dependency m id) else v
        else if is_constrained d.min_version && not (satisfies (ids.version id) d.min_version)
        then fail v (version_conflict m id)
        else v
  ]

  pub validate_dependencies : List Module → Module → List Dependency → Verdict → Verdict
  unfolding validate_dependency
  validate_dependencies ms m [] v = v
  validate_dependencies ms m (d ∷ ds) v =
      validate_dependencies ms m ds (validate_dependency ms m d v)

  -- The first loop of `Resolve`: every offender of every module is reported.
  pub validate : List Module → List Module → Verdict → Verdict
  unfolding validate_contract validate_dependencies
  validate ms [] v = v
  validate ms (m ∷ rest) v =
      validate ms rest (validate_dependencies ms m m.dependencies (validate_contract m v))

-- `depends = depends || (...)` over the dependencies.
pub depends_from : Bool → Module → List Dependency → Bool
depends_from depends d [] = depends
depends_from depends d (x ∷ xs) =
    depends_from (depends || (is_ordering_dependency x.kind && points_to x.module_id d.id)) d xs

unfoldable pub depends_on : Module → Module → Bool
unfolding depends_from
depends_on m d = depends_from false d m.dependencies

-- Whether the module waits for this dependency.
abbrev pub blocks : List Module → Dependency → Bool
blocks ms d = is_ordering_dependency d.kind && is_found (find_loaded ms d.module_id)

pub waiting_from : List Module → ℕ → List Dependency → ℕ
unfolding find_loaded
waiting_from ms waiting [] = waiting
waiting_from ms waiting (d ∷ ds) =
    waiting_from ms (if blocks ms d then (waiting + 1) % u32_mod else waiting) ds

pub count_waiting : List Module → List Module → List ℕ
unfolding waiting_from
count_waiting ms [] = []
count_waiting ms (m ∷ rest) = waiting_from ms 0 m.dependencies ∷ count_waiting ms rest

-- `for (index = size; index > 0; --index) if (pending[index - 1] == 0) next = index - 1`;
-- `NoModule` is `none`.
pub next_ready : ℕ → List ℕ → Option ℕ → Option ℕ
next_ready zero pending next = next
next_ready (suc i) pending next =
    next_ready i pending (if get_or pending i emitted == 0 then some i else next)

-- `if (pending[index] != Emitted && DependsOn(...)) --pending[index]` for each index.
pub settle : Module → List Module → List ℕ → List ℕ
unfolding depends_on
settle next [] pending = pending
settle next (m ∷ ms) [] = []
settle next (m ∷ ms) (p ∷ ps) =
    (if not (p == emitted) && depends_on m next then (p + u32_mod - 1) % u32_mod else p)
    ∷ settle next ms ps

-- The modules that the cycle report names.
pub unplaced : List Module → List ℕ → List Module
unplaced [] pending = []
unplaced (m ∷ ms) [] = []
unplaced (m ∷ ms) (p ∷ ps) = if p == emitted then unplaced ms ps else m ∷ unplaced ms ps

pub data Placement : Type 0 where
  placed : List Module → Placement
  stuck : List Module → List Module → Placement

-- The `while` loop; `none` means that the fuel ran out, or a read out of bounds.
pub place_all : List Module → ℕ → List Module → List ℕ → Option Placement
unfolding next_ready settle unplaced
place_all ms zero order pending =
    if ltb (length order) (length ms) then none else some (placed order)
place_all ms (suc fuel) order pending = elim (ltb (length order) (length ms)) [
  | false ↦ some (placed order)
  | true ↦ elim (next_ready (length ms) pending none) [
    | none ↦ some (stuck order (unplaced ms pending))
    | some next ↦ elim (get_elem? ms next) [
      | none ↦ none
      | some m ↦ place_all ms fuel (order ++ m ∷ []) (settle m ms (set pending next emitted))
    ]
  ]
]

-- `CModuleGraph`, the result of its `Resolve`, and what that logged.
pub record ModuleGraph : Type 0 where
  pub order : List Module

pub record Resolution : Type 0 where
  pub graph : ModuleGraph
  pub resolved : Bool
  pub log : List GraphError

abbrev pub report : Verdict → Placement → Resolution
report v (placed order) = record { graph = record { order = order }; resolved = true; log = v.log }
report v (stuck order cycle) = record {
  graph = record { order = order };
  resolved = false;
  log = v.log ++ dependency_cycle cycle ∷ [];
}

unfoldable pub resolve : ModuleIds → List Module → Option Resolution
unfolding validate count_waiting place_all
resolve ids ms =
    let v = validate ids ms ms (record { valid = true; log = [] }) in
    if v.valid
    then Option.map (report v) (place_all ms (length ms) [] (count_waiting ms ms))
    else some (record { graph = record { order = [] }; resolved = false; log = v.log })
