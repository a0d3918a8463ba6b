-- ===== src/Runtime/Tests.antt =====
-- A context of two modules, of which the second depends on the first.
use mathlib.Core.List.{reverse, mem-cons}
use mathlib.Core.Logic.Or
use tge_core.Prelude.{
  ℕ, ◌≡◌, refl, ◌⊎◌, ◌↔◌, Bool, true, false, List, [], ◌∷◌, ◌++◌, some, arith, All, Mem,
}
use tge_core.Modules.Version.{satisfies, is_constrained}
use tge_core.Modules.{Module, ModuleIds, required}
use tge_core.Modules.Graph.{resolve, depends_on}
use tge_core.Modules.Graph.Order.{IsInitOrder}
use tge_core.Modules.Graph.Resolve.{IsResolvable}
use tge_core.Runtime.{
  RunContext, initializes, dependency_initialized, Started, new_runtime, initialize, terminate,
  update, declares, frame_schedule, module_versions, register_context, input, render,
}
use tge_core.Runtime.Traces.{initialized_of, terminated_of}
use tge_core.Runtime.LifeCycle.{IsReady, registered, initialize_lem, terminate-initialize}
use tge_core.Runtime.Precedence.{initialize_precedes}
use tge_core.Runtime.Schedule.{frame, ticking, named, update-initialize, update-initialize_again}

abbrev ids : ModuleIds
ids = record {
  version = λ _. record { major = 1; minor = 0; patch = 0 };
  contract_version = λ _. 1;
}

abbrev core : Module
core = record { address = 100; id = 1; dependencies = [] }

abbrev game : Module
game = record {
  address = 200;
  id = 2;
  dependencies =
      record {
        module_id = some 1;
        kind = required;
        min_version = record { major = 0; minor = 0; patch = 0 };
      }
      ∷ [];
}

abbrev context : RunContext
context = record {
  modules = game ∷ core ∷ game ∷ [];
  schedule =
      record { phase = render; scheduled = game }
      ∷ record { phase = input; scheduled = core }
      ∷ record { phase = input; scheduled = game }
      ∷ [];
  no_tick = [];
}

abbrev all_well : Module → Bool
all_well m = true

registers_once : (registered ℕ new_runtime context).modules ≡ game ∷ core ∷ []
unfolding register_context new_runtime
registers_once = refl

context-IsReady : IsReady ℕ new_runtime context
unfolding register_context new_runtime
context-IsReady = record {
  idle = refl;
  fit = record {
    unique = (((λ e. absurd (omega (arith, e))), tt), (tt, tt));
    fits = (omega arith, (omega arith, tt));
  };
}

initialize_lem_example :
    (s : Started ℕ) × (initialize ℕ ids all_well new_runtime context ≡ some s)
    × ((s.result ≡ true) ↔ (
        IsResolvable ids (registered ℕ new_runtime context).modules
        × All (λ m. all_well m ≡ true) (registered ℕ new_runtime context).modules))
    × ((s.result ≡ false)
        ⊎ IsInitOrder (registered ℕ new_runtime context).modules s.runtime.active_modules)
initialize_lem_example = initialize_lem ℕ ids all_well new_runtime context context-IsReady

terminate-initialize_example :
    (s : Started ℕ) × (initialize ℕ ids (λ m. false) new_runtime context ≡ some s)
    × (terminated_of (s.calls ++ (terminate ℕ s.runtime).1)
        ≡ reverse (initialized_of (s.calls ++ (terminate ℕ s.runtime).1)))
    × ((terminate ℕ s.runtime).0.active_modules ≡ [])
terminate-initialize_example =
    terminate-initialize ℕ ids (λ m. false) new_runtime context context-IsReady

abbrev ticks : List (List Module)
ticks = [] ∷ [] ∷ (core ∷ game ∷ []) ∷ [] ∷ (game ∷ []) ∷ [] ∷ []

abbrev started : Started ℕ
started = record {
  runtime = record {
    modules = game ∷ core ∷ [];
    active_modules = core ∷ game ∷ [];
    module_graph = core ∷ game ∷ [];
    schedule = ticks;
    no_tick = [];
    running = true;
    initialized = true;
  };
  calls = initializes core ∷ dependency_initialized game 1 ∷ initializes game ∷ [];
  reports =
      frame_schedule ticks
      ∷ module_versions ((game, ids.version 2) ∷ (core, ids.version 1) ∷ [])
      ∷ [];
  result = true;
}

starts : initialize ℕ ids all_well new_runtime context ≡ some started
unfolding initialize new_runtime resolve satisfies is_constrained declares
starts = refl

core-registered : Mem core (registered ℕ new_runtime context).modules
unfolding register_context new_runtime
core-registered = mem-cons.1 (Or.inr (mem-cons.1 (Or.inl refl)))

game_depends : depends_on game core ≡ true
unfolding depends_on
game_depends = refl

initialize_precedes_example :
    Mem core (initialized_of {D = ℕ} (initializes core ∷ dependency_initialized game 1 ∷ []))
initialize_precedes_example =
    initialize_precedes ℕ ids all_well new_runtime context started
      (initializes core ∷ dependency_initialized game 1 ∷ []) [] game core context-IsReady starts
      refl core-registered game_depends

update-initialize_example :
    update ℕ (λ d. d) started.runtime 16
    ≡ frame ℕ (λ phase. ticking new_runtime phase ++ named ℕ new_runtime context phase) 16
unfolding new_runtime
update-initialize_example =
    update-initialize ℕ (λ d. d) ids all_well new_runtime context started 16 refl starts refl

abbrev ticks_twice : List (List Module)
ticks_twice = [] ∷ [] ∷ (core ∷ game ∷ core ∷ game ∷ []) ∷ [] ∷ (game ∷ game ∷ []) ∷ [] ∷ []

abbrev started_again : Started ℕ
started_again = record started {
  runtime = record (started.runtime) { schedule = ticks_twice };
  reports =
      frame_schedule ticks_twice
      ∷ module_versions ((game, ids.version 2) ∷ (core, ids.version 1) ∷ [])
      ∷ [];
}

starts_again :
    initialize ℕ ids all_well (terminate ℕ started.runtime).0 context ≡ some started_again
unfolding initialize terminate resolve satisfies is_constrained declares
starts_again = refl

update-initialize_again_example :
    update ℕ (λ d. d) started_again.runtime 16
    ≡ frame ℕ
        (λ phase.
          named ℕ new_runtime context phase
          ++ named ℕ (terminate ℕ started.runtime).0 context phase)
        16
update-initialize_again_example =
    update-initialize_again ℕ (λ d. d) ids all_well context context started started_again 16 starts
      starts_again refl
