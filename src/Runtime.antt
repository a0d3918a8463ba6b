-- ===== src/Runtime.antt =====
-- private/module/runtime.cpp: the life of a run context, from registration to termination. The code
-- of the modules is a parameter: whether the initialization of a module succeeds. What the runtime
-- does to modules is a list of calls, in order, and what it logs a list of reports.
pub mod Traces
pub mod Registration
pub mod LifeCycle
pub mod Precedence
pub mod Schedule
mod Tests
use mathlib.Core.List.{reverse}
use mathlib.Core.Option
use tge_core.Prelude.{
  ℕ, ◌==◌, Bool, true, false, not, ◌&&◌, ◌||◌, List, [], ◌∷◌, ◌++◌, map, Option, none, some,
  if◌then◌else◌, any, set, get_or,
}
use tge_core.Modules.{Module, Dependency, ModuleIds}
use tge_core.Modules.Version.{Version}
use tge_core.Modules.Graph.{points_to, resolve, Resolution, GraphError}

pub data FramePhase : Type 0 where
  frame_start pace input simulate render post_render : FramePhase

-- `static_cast<size_t>(phase)`
abbrev pub phase_index : FramePhase → ℕ
phase_index frame_start = 0
phase_index pace = 1
phase_index input = 2
phase_index simulate = 3
phase_index render = 4
phase_index post_render = 5

-- The phases in the order of their numbers.
abbrev pub frame_phases : List FramePhase
frame_phases = frame_start ∷ pace ∷ input ∷ simulate ∷ render ∷ post_render ∷ []

pub record ScheduleEntry : Type 0 where
  pub phase : FramePhase
  pub scheduled : Module

pub record RunContext : Type 0 where
  pub modules : List Module
  pub schedule : List ScheduleEntry
  pub no_tick : List Module

-- A call of a virtual function of a module. The deltas of `Update` are those of a type `D`.
pub data ModuleCall (D : Type 0) : Type 0 where
  initializes : Module → ModuleCall D
  terminates : Module → ModuleCall D
  dependency_initialized : Module → ℕ → ModuleCall D
  dependency_terminating : Module → ℕ → ModuleCall D
  updates : Module → FramePhase → D → ModuleCall D

-- The errors, and the two lines that name all modules.
pub data Report : Type 0 where
  unregistered : Module → FramePhase → Report
  never_ticks : Module → Report
  frame_schedule : List (List Module) → Report
  module_versions : List (Module × Version) → Report
  graph_error : GraphError → Report
  failed_module : Module → Report
  failed_modules : Report

pub record Runtime : Type 0 where
  pub modules : List Module
  pub active_modules : List Module
  pub module_graph : List Module
  pub schedule : List (List Module)
  pub no_tick : List Module
  pub running : Bool
  pub initialized : Bool

pub new_runtime : Runtime
new_runtime = record {
  modules = [];
  active_modules = [];
  module_graph = [];
  schedule = [] ∷ [] ∷ [] ∷ [] ∷ [] ∷ [] ∷ [];
  no_tick = [];
  running = true;
  initialized = false;
}

-- `std::ranges::find(modules, pModule) != modules.end()`: pointers are compared.
abbrev pub contains : List Module → Module → Bool
contains ms m = any (λ x. x.address == m.address) ms

pub declares : Module → Module → Bool
declares dependent m = any (λ (d : Dependency). points_to d.module_id m.id) dependent.dependencies

pub register_module : Runtime → Module → Runtime
register_module r m =
    if not (contains r.modules m) then record r { modules = r.modules ++ m ∷ [] } else r

-- `erase(it)` of the first entry that points there.
pub erase_first : List Module → Module → List Module
erase_first [] m = []
erase_first (x ∷ xs) m = if x.address == m.address then xs else x ∷ erase_first xs m

pub unregister_module : Runtime → Module → Runtime
unfolding erase_first
unregister_module r m = record r { modules = erase_first r.modules m }

-- The new state, and what is logged.
pub register_update : Runtime → ScheduleEntry → Runtime × List Report
register_update r e =
    if contains r.modules e.scheduled
    then (
      record r {
        schedule =
            set r.schedule (phase_index e.phase)
              (get_or r.schedule (phase_index e.phase) [] ++ e.scheduled ∷ []);
      },
      [],
    )
    else (r, unregistered e.scheduled e.phase ∷ [])

pub declare_no_tick : Runtime → Module → Runtime
declare_no_tick r m = record r { no_tick = r.no_tick ++ m ∷ [] }

-- The loop over the phases, from what `m_noTick` says.
pub is_scheduled : List (List Module) → Module → Bool → Bool
is_scheduled [] m scheduled = scheduled
is_scheduled (phase ∷ phases) m scheduled = is_scheduled phases m (scheduled || contains phase m)

pub validate_schedule : Runtime → List Module → List Report
unfolding is_scheduled
validate_schedule r [] = []
validate_schedule r (m ∷ ms) =
    if not (is_scheduled r.schedule m (contains r.no_tick m))
    then never_ticks m ∷ validate_schedule r ms
    else validate_schedule r ms

-- `LogModuleVersions`
pub versions_of : ModuleIds → List Module → List (Module × Version)
versions_of ids ms = map (λ m. (m, ids.version m.id)) ms

pub register_modules : Runtime → List Module → Runtime
unfolding register_module
register_modules r [] = r
register_modules r (m ∷ ms) = register_modules (register_module r m) ms

pub register_updates : Runtime → List ScheduleEntry → Runtime × List Report
unfolding register_update
register_updates r [] = (r, [])
register_updates r (e ∷ es) =
    let first = register_update r e in
    let rest = register_updates first.0 es in (rest.0, first.1 ++ rest.1)

pub declare_no_ticks : Runtime → List Module → Runtime
unfolding declare_no_tick
declare_no_ticks r [] = r
declare_no_ticks r (m ∷ ms) = declare_no_ticks (declare_no_tick r m) ms

abbrev pub failures : Option Module → List Report
failures none = []
failures (some m) = failed_module m ∷ []

abbrev pub is_none : Option Module → Bool
is_none none = true
is_none (some m) = false

module _ (D : Type 0) where
  pub notify_dependents_initialized : List Module → Module → List (ModuleCall D)
  notify_dependents_initialized [] m = []
  notify_dependents_initialized (dependent ∷ ms) m =
      if declares dependent m
      then dependency_initialized dependent m.id ∷ notify_dependents_initialized ms m
      else notify_dependents_initialized ms m

  -- What the loop of `InitializeModules` leaves: the active modules, the calls, and the module that
  -- failed, if any.
  pub record Progress : Type 0 where
    pub active : List Module
    pub calls : List (ModuleCall D)
    pub failed : Option Module

  pub initialize_each : (Module → Bool) → List Module → List Module → List Module → Progress
  unfolding notify_dependents_initialized
  initialize_each succeeds all [] active = record { active = active; calls = []; failed = none }
  initialize_each succeeds all (m ∷ ms) active = elim (succeeds m) [
    | true ↦
        let rest = initialize_each succeeds all ms (active ++ m ∷ []) in
        record rest { calls = initializes m ∷ (notify_dependents_initialized all m ++ rest.calls) }
    | false ↦ record { active = active; calls = initializes m ∷ terminates m ∷ []; failed = some m }
  ]

  -- The loop of `TerminateModules`, over the active modules from the last on.
  pub notify_dependents_terminating : List Module → Module → List (ModuleCall D)
  notify_dependents_terminating [] m = []
  notify_dependents_terminating (dependent ∷ ms) m =
      if not (dependent.address == m.address) && declares dependent m
      then dependency_terminating dependent m.id ∷ notify_dependents_terminating ms m
      else notify_dependents_terminating ms m

  -- `stack` is the active modules, the last one first.
  pub terminate_each : List Module → List (ModuleCall D)
  unfolding notify_dependents_terminating
  terminate_each [] = []
  terminate_each (m ∷ rest) =
      notify_dependents_terminating (reverse (m ∷ rest)) m ++ terminates m ∷ terminate_each rest

  -- `TerminateModules`: the calls, and the runtime without modules.
  pub terminate_modules : Runtime → Runtime × List (ModuleCall D)
  unfolding terminate_each
  terminate_modules r =
      (record r { active_modules = []; modules = [] }, terminate_each (reverse r.active_modules))

  pub record Started : Type 0 where
    pub runtime : Runtime
    pub calls : List (ModuleCall D)
    pub reports : List Report
    pub result : Bool

  abbrev initialized_by : (Module → Bool) → Runtime → Resolution → Started
  initialized_by succeeds r resolution =
      let r' = record r { module_graph = resolution.graph.order } in
      if resolution.resolved
      then (let p = initialize_each succeeds r.modules resolution.graph.order r.active_modules in
          record {
            runtime = record r' { active_modules = p.active };
            calls = p.calls;
            reports = map graph_error resolution.log ++ failures p.failed;
            result = is_none p.failed;
          })
      else record {
        runtime = r';
        calls = [];
        reports = map graph_error resolution.log;
        result = false;
      }

  -- `none` only where the model of `Resolve` returns none.
  pub initialize_modules : ModuleIds → (Module → Bool) → Runtime → Option Started
  unfolding initialize_each
  initialize_modules ids succeeds r = Option.map (initialized_by succeeds r) (resolve ids r.modules)

  -- What `Initialize` does before it initializes the modules.
  pub register_context : Runtime → RunContext → Runtime × List Report
  unfolding register_modules register_updates declare_no_ticks
  register_context r context =
      let registered = register_modules r context.modules in
      let updates = register_updates registered context.schedule in
      (declare_no_ticks updates.0 context.no_tick, updates.1)

  -- What is logged before the modules are initialized.
  pub boot_reports : ModuleIds → Runtime × List Report → List Report
  unfolding validate_schedule versions_of
  boot_reports ids (r, scheduling) =
      scheduling
      ++ (validate_schedule r r.modules
          ++ frame_schedule r.schedule ∷ module_versions (versions_of ids r.modules) ∷ [])

  -- The end of `Initialize`.
  abbrev concluded : List Report → Started → Started
  concluded before s = record s {
    runtime = record (s.runtime) { initialized = s.result };
    reports = before ++ (s.reports ++ (if s.result then [] else failed_modules ∷ []));
  }

  pub initialize : ModuleIds → (Module → Bool) → Runtime → RunContext → Option Started
  unfolding register_context boot_reports initialize_modules
  initialize ids succeeds r context =
      let registered = register_context r context in
      Option.map (concluded (boot_reports ids registered))
        (initialize_modules ids succeeds registered.0)

  pub terminate : Runtime → Runtime × List (ModuleCall D)
  unfolding terminate_modules
  terminate r = terminate_modules (record r { initialized = false })

  -- One phase of a frame.
  pub update_phase : FramePhase → D → List Module → List (ModuleCall D)
  update_phase phase delta [] = []
  update_phase phase delta (m ∷ ms) = updates m phase delta ∷ update_phase phase delta ms

  pub update_phases : Runtime → D → List FramePhase → List (ModuleCall D)
  unfolding update_phase
  update_phases r delta [] = []
  update_phases r delta (phase ∷ phases) =
      update_phase phase delta (get_or r.schedule (phase_index phase) [])
      ++ update_phases r delta phases

  -- `clamp` is `std::min(deltaTime, MaxFrameDelta)` on floating-point numbers.
  pub update : (D → D) → Runtime → D → List (ModuleCall D)
  unfolding update_phases
  update clamp r delta = if r.initialized then update_phases r (clamp delta) frame_phases else []

pub quit : Runtime → Runtime
quit r = record r { running = false }

pub can_run : Runtime → Bool
can_run r = r.running
