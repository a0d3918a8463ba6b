-- ===== src/Runtime/Registration.antt =====
-- What the registration of a run context leaves as it was.
use tge_core.Prelude.{◌≡◌, refl, ◌∙◌, List, [], ◌∷◌, arith}
use tge_core.Modules.{Module}
use tge_core.Runtime.{
  Runtime, RunContext, ScheduleEntry, register_module, register_update, declare_no_tick,
  register_modules, register_updates, declare_no_ticks, register_context,
}

-- Everything but the registered modules.
pub record SameButModules (r s : Runtime) : Type 0 where
  pub active : s.active_modules ≡ r.active_modules
  pub schedule : s.schedule ≡ r.schedule
  pub no_tick : s.no_tick ≡ r.no_tick
  pub running : s.running ≡ r.running

register_module-same : (r : Runtime) (m : Module) → SameButModules r (register_module r m)
unfolding register_module
register_module-same r m = ground arith

pub register_modules-same :
    (r : Runtime) (ms : List Module) → SameButModules r (register_modules r ms)
unfolding register_modules
register_modules-same r [] = record {
  active = refl;
  schedule = refl;
  no_tick = refl;
  running = refl;
}
register_modules-same r (m ∷ ms) =
    let first = register_module-same r m in
    let rest = register_modules-same (register_module r m) ms in
    record {
      active = rest.active ∙ first.active;
      schedule = rest.schedule ∙ first.schedule;
      no_tick = rest.no_tick ∙ first.no_tick;
      running = rest.running ∙ first.running;
    }

pub register_update-same :
    (r : Runtime) (e : ScheduleEntry)
    → ((register_update r e).0.active_modules ≡ r.active_modules)
      × ((register_update r e).0.modules ≡ r.modules)
      × ((register_update r e).0.running ≡ r.running)
unfolding register_update
register_update-same r e = ground arith

pub register_updates-same :
    (r : Runtime) (es : List ScheduleEntry)
    → ((register_updates r es).0.active_modules ≡ r.active_modules)
      × ((register_updates r es).0.modules ≡ r.modules)
      × ((register_updates r es).0.running ≡ r.running)
unfolding register_updates
register_updates-same r [] = (refl, refl, refl)
register_updates-same r (e ∷ es) =
    let (a, m, g) = register_update-same r e in
    let (a', m', g') = register_updates-same (register_update r e).0 es in (a' ∙ a, m' ∙ m, g' ∙ g)

pub declare_no_ticks-same :
    (r : Runtime) (ms : List Module)
    → ((declare_no_ticks r ms).active_modules ≡ r.active_modules)
      × ((declare_no_ticks r ms).modules ≡ r.modules)
      × ((declare_no_ticks r ms).schedule ≡ r.schedule)
      × ((declare_no_ticks r ms).running ≡ r.running)
unfolding declare_no_ticks declare_no_tick
declare_no_ticks-same r [] = (refl, refl, refl, refl)
declare_no_ticks-same r (m ∷ ms) = declare_no_ticks-same (declare_no_tick r m) ms

-- Registration starts no module, and registers the modules of the context alone.
pub register_context-same :
    (D : Type 0) (r : Runtime) (context : RunContext)
    → let r' = (register_context D r context).0 in
      (r'.active_modules ≡ r.active_modules)
      × (r'.modules ≡ (register_modules r context.modules).modules)
      × (r'.running ≡ r.running)
unfolding register_context
register_context-same D r context =
    let first = register_modules r context.modules in
    let same = register_modules-same r context.modules in
    let (a, m, g) = register_updates-same first context.schedule in
    let (a', m', _, g') =
      declare_no_ticks-same (register_updates first context.schedule).0 context.no_tick in
    (a' ∙ a ∙ same.active, m' ∙ m, g' ∙ g ∙ same.running)
