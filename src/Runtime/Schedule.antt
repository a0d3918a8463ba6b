-- ===== src/Runtime/Schedule.antt =====
-- What ticks in a frame.
use mathlib.Core.List.{append_assoc, append-nil, map}
use mathlib.Core.Option
use mathlib.Core.Path.{ap₂, fun_ext}
use tge_core.Prelude.{
  ◌<◌, ◌≡◌, refl, sym, ap, subst, ◌∙◌, inl, inr, Bool, true, ◌==◌, ◌&&◌, List, [], ◌∷◌, ◌++◌,
  Option, some, if◌then◌else◌, arith, get_or, length, length-set, get_or-set, Bool-cases,
  Option-cases, ==_iff,
}
use tge_core.Modules.{Module, ModuleIds}
use tge_core.Modules.Graph.{resolve, Resolution}
use tge_core.Runtime.{
  Runtime, RunContext, ScheduleEntry, FramePhase, frame_phases, phase_index, contains,
  register_update, register_updates, Report, boot_reports, terminate, terminate_modules,
  register_modules, register_context, update_phase, update_phases, update, ModuleCall, updates,
  Started, initialize, initialize_modules, initialized_by, concluded, new_runtime, frame_start,
  pace, input, simulate, render, post_render,
}
use tge_core.Runtime.Registration.{
  register_modules-same, register_update-same, register_updates-same, declare_no_ticks-same,
}

-- The modules that a schedule names for a phase, of those that are registered.
abbrev pub scheduled_in : List Module → FramePhase → List ScheduleEntry → List Module
scheduled_in registered phase [] = []
scheduled_in registered phase (e ∷ es) =
    if phase_index phase == phase_index e.phase && contains registered e.scheduled
    then e.scheduled ∷ scheduled_in registered phase es
    else scheduled_in registered phase es

phase_index-lt : (phase : FramePhase) → phase_index phase < 6
phase_index-lt frame_start = omega arith
phase_index-lt pace = omega arith
phase_index-lt input = omega arith
phase_index-lt simulate = omega arith
phase_index-lt render = omega arith
phase_index-lt post_render = omega arith

-- The modules that tick in a phase.
abbrev pub ticking : Runtime → FramePhase → List Module
ticking r phase = get_or r.schedule (phase_index phase) []

register_update-ticking :
    (r : Runtime) (e : ScheduleEntry) (phase : FramePhase)
    → length r.schedule ≡ 6
    → (length (register_update r e).0.schedule ≡ 6)
      × (ticking (register_update r e).0 phase
          ≡ ticking r phase ++ scheduled_in r.modules phase (e ∷ []))
unfolding register_update
register_update-ticking r e phase six = elim (Bool-cases (contains r.modules e.scheduled)) [
  | inl here ↦
      let i = phase_index e.phase in
      let more = get_or r.schedule i [] ++ e.scheduled ∷ [] in
      let read =
        get_or-set r.schedule i (phase_index phase) more []
          (omega (arith, six, phase_index-lt e.phase)) in
      rw (here, register_update)
        (
          length-set r.schedule i more ∙ six,
          read ∙ elim (Bool-cases (phase_index phase == i)) [
            | inl same ↦
                rw same
                  (ap (λ k. get_or r.schedule k [] ++ e.scheduled ∷ []) (sym ((==_iff _ _).0 same)))
            | inr other ↦ rw other (sym (append-nil (ticking r phase)))
          ],
        )
  | inr absent ↦
      rw (absent, register_update)
        (
          six,
          elim (Bool-cases (phase_index phase == phase_index e.phase)) [
            | inl same ↦ rw same (sym (append-nil (ticking r phase)))
            | inr other ↦ rw other (sym (append-nil (ticking r phase)))
          ],
        )
]

scheduled_in-cons :
    (ms : List Module) (phase : FramePhase) (e : ScheduleEntry) (es : List ScheduleEntry)
    → scheduled_in ms phase (e ∷ es) ≡ scheduled_in ms phase (e ∷ []) ++ scheduled_in ms phase es
scheduled_in-cons ms phase e es =
    elim (Bool-cases (phase_index phase == phase_index e.phase && contains ms e.scheduled)) [
      | inl h ↦ rw h refl
      | inr h ↦ rw h refl
    ]

pub register_updates-ticking :
    (r : Runtime) (es : List ScheduleEntry) (phase : FramePhase)
    → length r.schedule ≡ 6
    → ticking (register_updates r es).0 phase ≡ ticking r phase ++ scheduled_in r.modules phase es
unfolding register_updates
register_updates-ticking r [] phase six = sym (append-nil (ticking r phase))
register_updates-ticking r (e ∷ es) phase six =
    let (six', one) = register_update-ticking r e phase six in
    let (_, same, _) = register_update-same r e in
    register_updates-ticking (register_update r e).0 es phase six'
    ∙ ap₂ (λ l ms. l ++ scheduled_in ms phase es) one same
    ∙ append_assoc (ticking r phase) (scheduled_in r.modules phase (e ∷ []))
        (scheduled_in r.modules phase es)
    ∙ ap (λ l. ticking r phase ++ l) (sym (scheduled_in-cons r.modules phase e es))

length-register_updates :
    (r : Runtime) (es : List ScheduleEntry)
    → length r.schedule ≡ 6
    → length (register_updates r es).0.schedule ≡ 6
unfolding register_updates
length-register_updates r [] six = six
length-register_updates r (e ∷ es) six =
    length-register_updates (register_update r e).0 es
      (register_update-ticking r e frame_start six).0

-- What a registered context adds to a phase.
pub register_context-ticking :
    (D : Type 0) (r : Runtime) (context : RunContext) (phase : FramePhase)
    → length r.schedule ≡ 6
    → ticking (register_context D r context).0 phase
      ≡ ticking r phase
        ++ scheduled_in (register_context D r context).0.modules phase context.schedule
unfolding register_context
register_context-ticking D r context phase six =
    let first = register_modules r context.modules in
    let same = register_modules-same r context.modules in
    let middle = (register_updates first context.schedule).0 in
    let (_, ms, sched, _) = declare_no_ticks-same middle context.no_tick in
    ap (λ l. get_or l (phase_index phase) []) sched
    ∙ register_updates-ticking first context.schedule phase (ap length same.schedule ∙ six)
    ∙ ap₂ (λ l m. get_or l (phase_index phase) [] ++ scheduled_in m phase context.schedule)
        same.schedule (sym (ms ∙ (register_updates-same first context.schedule).1))

module _ (D : Type 0) (succeeds : Module → Bool) where
  -- Initialization leaves the schedule, and its result is what `Update` looks at.
  abbrev Leaves : Runtime → Started D → Type 0
  Leaves r s = (s.runtime.schedule ≡ r.schedule) × (s.runtime.initialized ≡ s.result)

  initialized_by-Leaves :
      (r : Runtime) (x : Resolution) (before : List Report)
      → Leaves r (concluded D before (initialized_by D succeeds r x))
  initialized_by-Leaves r x before = elim (Bool-cases x.resolved) [
    | inl e ↦ rw e (refl, refl)
    | inr e ↦ rw e (refl, refl)
  ]

  pub initialize-Leaves :
      (ids : ModuleIds) (r : Runtime) (context : RunContext) (s : Started D)
      → initialize D ids succeeds r context ≡ some s
      → Leaves (register_context D r context).0 s
  unfolding initialize initialize_modules
  initialize-Leaves ids r context s e =
      let before = boot_reports D ids (register_context D r context) in
      let r' = (register_context D r context).0 in
      let run = λ (o : Option Resolution).
        Option.map (concluded D before) (Option.map (initialized_by D succeeds r') o) in
      elim (Option-cases (resolve ids r'.modules)) [
        | inl none' ↦ cc (sym (ap run none') ∙ e)
        | inr (x, found) ↦
            let same : concluded D before (initialized_by D succeeds r' x) ≡ s =
              cc (sym (ap run found) ∙ e) in
            subst (Leaves r') same (initialized_by-Leaves r' x before)
      ]

-- The calls of one phase: each of these modules once.
abbrev pub ticks : (D : Type 0) → FramePhase → D → List Module → List (ModuleCall D)
ticks D phase delta = map (λ m. updates m phase delta)

-- A frame in which each phase ticks these modules.
abbrev pub frame : (D : Type 0) → (FramePhase → List Module) → D → List (ModuleCall D)
frame D modules_of delta =
    ticks D frame_start delta (modules_of frame_start)
    ++ (ticks D pace delta (modules_of pace)
        ++ (ticks D input delta (modules_of input)
            ++ (ticks D simulate delta (modules_of simulate)
                ++ (ticks D render delta (modules_of render)
                    ++ ticks D post_render delta (modules_of post_render)))))

update_phase-ticks :
    (D : Type 0) (phase : FramePhase) (delta : D) (ms : List Module)
    → update_phase D phase delta ms ≡ ticks D phase delta ms
unfolding update_phase
update_phase-ticks D phase delta [] = refl
update_phase-ticks D phase delta (m ∷ ms) =
    ap (λ l. updates m phase delta ∷ l) (update_phase-ticks D phase delta ms)

update_phases-frame :
    (D : Type 0) (r : Runtime) (delta : D) (modules_of : FramePhase → List Module)
    → ((phase : FramePhase) → ticking r phase ≡ modules_of phase)
    → update_phases D r delta frame_phases ≡ frame D modules_of delta
unfolding update_phases
update_phases-frame D r delta modules_of h = ap₂ ◌++◌ (one frame_start) (
    ap₂ ◌++◌ (one pace) (
      ap₂ ◌++◌ (one input) (
        ap₂ ◌++◌ (one simulate)
          (ap₂ ◌++◌ (one render) (ap (λ l. l ++ []) (one post_render) ∙ append-nil _)))))
  where
    one :
        (phase : FramePhase)
        → update_phase D phase delta (ticking r phase) ≡ ticks D phase delta (modules_of phase)
    one phase =
        update_phase-ticks D phase delta (ticking r phase) ∙ ap (ticks D phase delta) (h phase)

-- What a registered context names for a phase.
abbrev pub named : (D : Type 0) → Runtime → RunContext → FramePhase → List Module
named D r context phase =
    scheduled_in (register_context D r context).0.modules phase context.schedule

-- In a runtime with a schedule for six phases, initialized with true, a frame runs the phases frame
-- start, pace, input, simulate, render and post render, in this order, each once. In each phase it
-- ticks once each module that was scheduled for it before, and then each that the context names for
-- it, in its order, less those that are not registered. All get the same clamped delta.
pub update-initialize :
    (D : Type 0) (clamp : D → D) (ids : ModuleIds) (succeeds : Module → Bool) (r : Runtime)
    (context : RunContext) (s : Started D) (delta : D)
    → length r.schedule ≡ 6
    → initialize D ids succeeds r context ≡ some s
    → s.result ≡ true
    → update D clamp s.runtime delta
      ≡ frame D (λ phase. ticking r phase ++ named D r context phase) (clamp delta)
unfolding update
update-initialize D clamp ids succeeds r context s delta six e ok =
    let (sched, up) = initialize-Leaves D succeeds ids r context s e in
    rw (up ∙ ok) (
      update_phases-frame D s.runtime (clamp delta) _ λ phase.
        ap (λ l. get_or l (phase_index phase) []) sched
        ∙ register_context-ticking D r context phase six)

length-register_context :
    (D : Type 0) (r : Runtime) (context : RunContext)
    → length r.schedule ≡ 6
    → length (register_context D r context).0.schedule ≡ 6
unfolding register_context
length-register_context D r context six =
    let first = register_modules r context.modules in
    let (_, _, sched, _) =
      declare_no_ticks-same (register_updates first context.schedule).0 context.no_tick in
    ap length sched
    ∙ length-register_updates first context.schedule
        (ap length (register_modules-same r context.modules).schedule ∙ six)

ticking-new_runtime : (phase : FramePhase) → ticking new_runtime phase ≡ []
unfolding new_runtime
ticking-new_runtime frame_start = refl
ticking-new_runtime pace = refl
ticking-new_runtime input = refl
ticking-new_runtime simulate = refl
ticking-new_runtime render = refl
ticking-new_runtime post_render = refl

six_phases : length new_runtime.schedule ≡ 6
unfolding new_runtime
six_phases = refl

terminate-schedule : (D : Type 0) (r : Runtime) → (terminate D r).0.schedule ≡ r.schedule
unfolding terminate terminate_modules
terminate-schedule D r = refl

-- `Terminate` forgets the modules and not their schedule: when the runtime is initialized again, a
-- frame ticks what the first context named for a phase, and then what the second names. So a context
-- that is run twice ticks its modules twice in every frame.
pub update-initialize_again :
    (D : Type 0) (clamp : D → D) (ids : ModuleIds) (succeeds : Module → Bool)
    (first second : RunContext) (s t : Started D) (delta : D)
    → initialize D ids succeeds new_runtime first ≡ some s
    → initialize D ids succeeds (terminate D s.runtime).0 second ≡ some t
    → t.result ≡ true
    → update D clamp t.runtime delta
      ≡ frame D
          (λ phase.
            named D new_runtime first phase ++ named D (terminate D s.runtime).0 second phase)
          (clamp delta)
update-initialize_again D clamp ids succeeds first second s t delta e f ok =
    let six =
      ap length (terminate-schedule D s.runtime ∙ kept.0)
      ∙ length-register_context D new_runtime first six_phases in
    update-initialize D clamp ids succeeds (terminate D s.runtime).0 second t delta six f ok
    ∙ ap (λ g. frame D g (clamp delta))
        (fun_ext
          λ phase. ap (λ l. l ++ named D (terminate D s.runtime).0 second phase) (before phase))
  where
    kept :
        (s.runtime.schedule ≡ (register_context D new_runtime first).0.schedule)
        × (s.runtime.initialized ≡ s.result)
    kept = initialize-Leaves D succeeds ids new_runtime first s e

    before :
        (phase : FramePhase)
        → ticking (terminate D s.runtime).0 phase ≡ named D new_runtime first phase
    before phase =
        ap (λ l. get_or l (phase_index phase) []) (terminate-schedule D s.runtime ∙ kept.0)
        ∙ register_context-ticking D new_runtime first phase six_phases
        ∙ ap (λ l. l ++ named D new_runtime first phase) (ticking-new_runtime phase)
