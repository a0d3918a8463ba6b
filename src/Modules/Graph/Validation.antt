-- ===== src/Modules/Graph/Validation.antt =====
-- What the first loop of `Resolve` accepts, and what it reports.
use tge_core.Prelude.{
  ℕ, ◌≡◌, ◌≢◌, ◌⊎◌, inl, inr, ◌↔◌, true, false, List, [], ◌∷◌, some, arith, All, Option-cases,
}
use tge_core.Modules.{Module, Dependency, ModuleIds, required, module_contract_version}
use tge_core.Modules.Version.{satisfies, is_constrained}
use tge_core.Modules.Graph.{
  find_loaded, is_found, Verdict, validate_contract, validate_dependency, validate_dependencies,
  validate,
}

module _ (ids : ModuleIds) (ms : List Module) where
  -- The dependency names a module, which is loaded in a version that suits, or may be absent.
  abbrev pub IsMet : Dependency → Type 0
  IsMet d =
      (id : ℕ) × (d.module_id ≡ some id)
      × (((is_found (find_loaded ms (some id)) ≡ false) × (d.kind ≢ required))
          ⊎ ((is_found (find_loaded ms (some id)) ≡ true)
              × ((is_constrained d.min_version ≡ false)
                  ⊎ (satisfies (ids.version id) d.min_version ≡ true))))

  -- The module was built against this contract, and its dependencies are met.
  abbrev pub IsLoadable : Module → Type 0
  IsLoadable m = (ids.contract_version m.id ≡ module_contract_version) × All IsMet m.dependencies

  -- A verdict that is valid has reported nothing.
  abbrev pub IsQuiet : Verdict → Type 0
  IsQuiet v = v.valid ≡ true → v.log ≡ []

  validate_dependency_lem :
      (m : Module) (d : Dependency) (v : Verdict)
      → ((validate_dependency ids ms m d v).valid ≡ true) ↔ ((v.valid ≡ true) × IsMet d)
  unfolding validate_dependency
  validate_dependency_lem m d v = elim (Option-cases d.module_id) [
    | inl e ↦ (λ h. ground arith, λ h. ground arith)
    | inr (id, e) ↦ (λ h. (ground arith, (id, e, ground arith)), λ h. ground arith)
  ]

  validate_dependency-IsQuiet :
      (m : Module) (d : Dependency) (v : Verdict)
      → IsQuiet v
      → IsQuiet (validate_dependency ids ms m d v)
  unfolding validate_dependency
  validate_dependency-IsQuiet m d v q h = ground arith

  validate_dependencies_lem :
      (m : Module) (ds : List Dependency) (v : Verdict)
      → ((validate_dependencies ids ms m ds v).valid ≡ true) ↔ ((v.valid ≡ true) × All IsMet ds)
  unfolding validate_dependencies
  validate_dependencies_lem m [] v = (λ h. (h, tt), λ h. h.0)
  validate_dependencies_lem m (d ∷ ds) v =
      let rest = validate_dependencies_lem m ds (validate_dependency ids ms m d v) in
      let one = validate_dependency_lem m d v in
      (
        λ h. let (first, met) = rest.0 h in let (ok, fits) = one.0 first in (ok, (fits, met)),
        λ (ok, (fits, met)). rest.1 (one.1 (ok, fits), met),
      )

  validate_dependencies-IsQuiet :
      (m : Module) (ds : List Dependency) (v : Verdict)
      → IsQuiet v
      → IsQuiet (validate_dependencies ids ms m ds v)
  unfolding validate_dependencies
  validate_dependencies-IsQuiet m [] v q = q
  validate_dependencies-IsQuiet m (d ∷ ds) v q =
      validate_dependencies-IsQuiet m ds (validate_dependency ids ms m d v)
        (validate_dependency-IsQuiet m d v q)

  validate_contract_lem :
      (m : Module) (v : Verdict)
      → ((validate_contract ids m v).valid ≡ true)
        ↔ ((v.valid ≡ true) × (ids.contract_version m.id ≡ module_contract_version))
  unfolding validate_contract
  validate_contract_lem m v = (λ h. ground arith, λ h. ground arith)

  validate_contract-IsQuiet :
      (m : Module) (v : Verdict) → IsQuiet v → IsQuiet (validate_contract ids m v)
  unfolding validate_contract
  validate_contract-IsQuiet m v q h = ground arith

  -- The verdict is valid exactly if every module is loadable.
  pub validate_lem :
      (rest : List Module) (v : Verdict)
      → ((validate ids ms rest v).valid ≡ true) ↔ ((v.valid ≡ true) × All IsLoadable rest)
  unfolding validate
  validate_lem [] v = (λ h. (h, tt), λ h. h.0)
  validate_lem (m ∷ rest) v =
      let more =
        validate_lem rest
          (validate_dependencies ids ms m m.dependencies (validate_contract ids m v)) in
      let deps = validate_dependencies_lem m m.dependencies (validate_contract ids m v) in
      let contract = validate_contract_lem m v in
      (
        λ h.
            let (now, later) = more.0 h in
            let (built, met) = deps.0 now in
            let (ok, version) = contract.0 built in (ok, ((version, met), later)),
        λ (ok, ((version, met), later)). more.1 (deps.1 (contract.1 (ok, version), met), later),
      )

  pub validate-IsQuiet :
      (rest : List Module) (v : Verdict) → IsQuiet v → IsQuiet (validate ids ms rest v)
  unfolding validate
  validate-IsQuiet [] v q = q
  validate-IsQuiet (m ∷ rest) v q =
      validate-IsQuiet rest
        (validate_dependencies ids ms m m.dependencies (validate_contract ids m v))
        (validate_dependencies-IsQuiet m m.dependencies (validate_contract ids m v)
          (validate_contract-IsQuiet m v q))
