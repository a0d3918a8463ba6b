-- ===== src/Runtime/LifeCycle.antt =====
-- A run context from its initialization to its termination.
use mathlib.Core.List.{reverse, reverse-append, append-nil}
use mathlib.Core.List.Perm
use mathlib.Core.Path.{ap₂}
use mathlib.Core.Bool.{Bool-set}
use mathlib.Core.Option
use tge_core.Prelude.{
  ◌≡◌, refl, sym, ap, ◌∙◌, subst, ◌⊎◌, inl, inr, ◌↔◌, Bool, true, false, List, [], ◌++◌, Option,
  none, some, arith, All, All-of_mem, All-mem, All-append, Distinct, Perm, Option-cases,
}
use tge_core.Modules.{Module, ModuleIds}
use tge_core.Modules.Graph.{Resolution}
use tge_core.Modules.Graph.Order.{IsInitOrder, FitsCounter}
use tge_core.Modules.Graph.Resolve.{IsResolvable, resolve_lem}
use tge_core.Runtime.{
  Runtime, RunContext, Started, Progress, initialize_each, initialize_modules, initialized_by,
  concluded, boot_reports, register_context, initialize, terminate, terminate_modules,
  terminate_each, is_none,
}
use tge_core.Runtime.Registration.{register_context-same}
use tge_core.Runtime.Traces.{
  initialized_of, terminated_of, initialized_of-append, terminated_of-append, terminate_each_lem,
  Traced, initialize_each-Traced, list_of,
}

-- The modules of a runtime have distinct ids, and their dependencies fit the counters.
pub record IsFit (r : Runtime) : Type 0 where
  pub unique : Distinct (λ m. m.id) r.modules
  pub fits : FitsCounter r.modules

module _ (D : Type 0) (ids : ModuleIds) (succeeds : Module → Bool) where
  -- What the initialization of the registered modules came to.
  pub record Outcome (r : Runtime) (s : Started D) : Type 0 where
    pub order : List Module
    pub progress : Progress D
    pub placed : s.runtime.module_graph ≡ order
    pub traced : Traced D succeeds order r.active_modules progress
    pub active : s.runtime.active_modules ≡ progress.active
    pub calls : s.calls ≡ progress.calls
    pub result : s.result ≡ is_none progress.failed
    pub sorted : IsInitOrder r.modules order

  pub record Refused (r : Runtime) (s : Started D) : Type 0 where
    pub unresolvable : ¬ IsResolvable ids r.modules
    pub no_calls : s.calls ≡ []
    pub same_active : s.runtime.active_modules ≡ r.active_modules
    pub failed : s.result ≡ false

  initialized_by-Outcome :
      (r : Runtime) (x : Resolution)
      → x.resolved ≡ true
      → IsInitOrder r.modules x.graph.order
      → Outcome r (initialized_by D succeeds r x)
  initialized_by-Outcome r x e sorted = rw e (record {
    order = x.graph.order;
    progress = initialize_each D succeeds r.modules x.graph.order r.active_modules;
    placed = refl;
    traced = initialize_each-Traced D succeeds r.modules x.graph.order r.active_modules;
    active = refl;
    calls = refl;
    result = refl;
    sorted = sorted;
  })

  initialize_modules_lem :
      (r : Runtime)
      → IsFit r
      → (s : Started D) × (initialize_modules D ids succeeds r ≡ some s)
        × ((IsResolvable ids r.modules × Outcome r s) ⊎ Refused r s)
  unfolding initialize_modules
  initialize_modules_lem r fit =
      let (x, e, cases) = resolve_lem ids r.modules fit.unique fit.fits in
      (
        initialized_by D succeeds r x,
        ap (Option.map (initialized_by D succeeds r)) e,
        elim cases [
          | inl (ok, resolvable, sorted, quiet) ↦
              inl (resolvable, initialized_by-Outcome r x ok sorted)
          | inr (bad, unresolvable) ↦ inr (
              rw bad (record {
                unresolvable = unresolvable;
                no_calls = refl;
                same_active = refl;
                failed = refl;
              }))
        ],
      )

  each_succeeds :
      (ms order : List Module)
      → Perm order ms
      → All (λ m. succeeds m ≡ true) ms ↔ All (λ m. succeeds m ≡ true) order
  each_succeeds ms order perm = (
    λ h. All-of_mem order (λ m mem. All-mem (λ _. Bool-set _ _) ms h ((Perm.mem_iff perm).0 mem)),
    λ h. All-of_mem ms (λ m mem. All-mem (λ _. Bool-set _ _) order h ((Perm.mem_iff perm).1 mem)),
  )

  clash :
      (o : Option Module) (m : Module)
      → o ≡ some m
      → All (λ m. succeeds m ≡ true) (list_of o)
      → All (λ m. succeeds m ≡ false) (list_of o)
      → ⊥
  clash none m e h k = cc
  clash (some x) m e h k = cc (h.0, k.0)

  -- The traced initialization came to its end exactly if every module succeeds.
  Traced-succeeds :
      (ms active : List Module) (p : Progress D)
      → Traced D succeeds ms active p
      → (is_none p.failed ≡ true) ↔ All (λ m. succeeds m ≡ true) ms
  Traced-succeeds ms active p t = (
    λ h. elim (Option-cases p.failed) [
      | inl e ↦
          subst (λ l. All (λ m. succeeds m ≡ true) l)
            (sym (t.parts ∙ rw (e, t.complete e) (append-nil t.up))) t.good
      | inr (m, e) ↦ absurd (ground arith)
    ],
    λ h. elim (Option-cases p.failed) [
      | inl e ↦ rw e refl
      | inr (m, e) ↦
          let both =
            All-append (λ m. succeeds m ≡ true) t.up (list_of p.failed ++ t.unreached)
              (subst (λ l. All (λ m. succeeds m ≡ true) l) t.parts h) in
          let failed =
            (All-append (λ m. succeeds m ≡ true) (list_of p.failed) t.unreached both.1).0 in
          absurd (clash p.failed m e failed t.bad)
    ],
  )

-- The runtime of the registered modules is fit, and nothing runs yet.
pub record IsReady (D : Type 0) (r : Runtime) (context : RunContext) : Type 0 where
  pub idle : r.active_modules ≡ []
  pub fit : IsFit (register_context D r context).0

reverse-list_of : (o : Option Module) → reverse (list_of o) ≡ list_of o
reverse-list_of none = refl
reverse-list_of (some m) = refl

abbrev pub registered : (D : Type 0) → Runtime → RunContext → Runtime
registered D r context = (register_context D r context).0

module _ (D : Type 0) (ids : ModuleIds) (succeeds : Module → Bool) (r : Runtime)
    (context : RunContext) (ready : IsReady D r context) where
  pub initialize_cases :
      (s : Started D) × (initialize D ids succeeds r context ≡ some s)
      × ((IsResolvable ids (registered D r context).modules
            × Outcome D ids succeeds (registered D r context) s)
          ⊎ Refused D ids succeeds (registered D r context) s)
      × (s.runtime.initialized ≡ s.result)
  unfolding initialize
  initialize_cases =
      let (s, e, cases) =
        initialize_modules_lem D ids succeeds (registered D r context) ready.fit in
      (
        concluded D (boot_reports D ids (register_context D r context)) s,
        ap (Option.map (concluded D (boot_reports D ids (register_context D r context)))) e,
        elim cases [
          | inl (resolvable, o) ↦ inl (
            resolvable,
            record {
              order = o.order;
              progress = o.progress;
              placed = o.placed;
              traced = o.traced;
              active = o.active;
              calls = o.calls;
              result = o.result;
              sorted = o.sorted;
            },
          )
          | inr f ↦ inr (record {
            unresolvable = f.unresolvable;
            no_calls = f.no_calls;
            same_active = f.same_active;
            failed = f.failed;
          })
        ],
        refl,
      )

-- The modules that came up are the active ones, if none was active before.
up_active :
    {D : Type 0} {ids : ModuleIds} {succeeds : Module → Bool} {r : Runtime} {context : RunContext}
    {s : Started D}
    → IsReady D r context
    → (o : Outcome D ids succeeds (registered D r context) s) → o.progress.active ≡ o.traced.up
up_active {D} {r} {context} ready o =
    o.traced.now_active
    ∙ ap (λ l. l ++ o.traced.up) ((register_context-same D r context).0 ∙ ready.idle)

-- Without a failure they are all.
came_up :
    {D : Type 0} {ids : ModuleIds} {succeeds : Module → Bool} {r : Runtime} {context : RunContext}
    {s : Started D}
    → IsReady D r context
    → (o : Outcome D ids succeeds (registered D r context) s) → o.progress.failed ≡ none
    → o.progress.active ≡ o.order
came_up {D} {r} {context} ready o none' =
    up_active ready o
    ∙ sym (o.traced.parts ∙ rw (none', o.traced.complete none') (append-nil o.traced.up))

-- `Initialize` returns, and it returns true exactly if the registered modules can be put in order and
-- each of them initializes. Then all of them are active, in an order in which each stands behind
-- every registered module that it depends on as Required or Optional. The runtime had no active
-- module, and the registered modules have distinct ids and fewer than 2^32 - 1 dependencies each.
pub initialize_lem :
    (D : Type 0) (ids : ModuleIds) (succeeds : Module → Bool) (r : Runtime) (context : RunContext)
    → IsReady D r context
    → (s : Started D) × (initialize D ids succeeds r context ≡ some s)
      × ((s.result ≡ true) ↔ (
          IsResolvable ids (registered D r context).modules
          × All (λ m. succeeds m ≡ true) (registered D r context).modules))
      × ((s.result ≡ false) ⊎ IsInitOrder (registered D r context).modules s.runtime.active_modules)
initialize_lem D ids succeeds r context ready =
    let (s, e, cases, _) = initialize_cases D ids succeeds r context ready in
    elim cases [
      | inl (resolvable, o) ↦ (
        s,
        e,
        (
          λ h. (resolvable, (succeed o).1 ((complete o).0 (sym o.result ∙ h))),
          λ h. o.result ∙ (complete o).1 ((succeed o).0 h.1),
        ),
        elim (Option-cases o.progress.failed) [
          | inl none' ↦
              inr (subst (IsInitOrder ms) (sym (o.active ∙ came_up ready o none')) o.sorted)
          | inr (m, bad) ↦ inl (o.result ∙ rw bad refl)
        ],
      )
      | inr f ↦ (s, e, (λ h. cc (h, f.failed), λ h. absurd (f.unresolvable h.0)), inl f.failed)
    ]
  where
    ms : List Module
    ms = (registered D r context).modules

    succeed :
        {s : Started D} (o : Outcome D ids succeeds (registered D r context) s)
        → All (λ m. succeeds m ≡ true) ms ↔ All (λ m. succeeds m ≡ true) o.order
    succeed o = each_succeeds D ids succeeds ms o.order o.sorted.0

    complete :
        {s : Started D} (o : Outcome D ids succeeds (registered D r context) s)
        → (is_none o.progress.failed ≡ true) ↔ All (λ m. succeeds m ≡ true) o.order
    complete o =
        Traced-succeeds D ids succeeds o.order (registered D r context).active_modules o.progress
          o.traced

-- From `Initialize` to `Terminate` the modules whose initialization was called are terminated once
-- each, in the reverse order, the one that failed to initialize too; and no module is active in the
-- end. The runtime had no active module, and the registered modules have distinct ids and fewer than
-- 2^32 - 1 dependencies each.
pub terminate-initialize :
    (D : Type 0) (ids : ModuleIds) (succeeds : Module → Bool) (r : Runtime) (context : RunContext)
    → IsReady D r context
    → (s : Started D) × (initialize D ids succeeds r context ≡ some s)
      × (terminated_of (s.calls ++ (terminate D s.runtime).1)
          ≡ reverse (initialized_of (s.calls ++ (terminate D s.runtime).1)))
      × ((terminate D s.runtime).0.active_modules ≡ [])
unfolding terminate terminate_modules
terminate-initialize D ids succeeds r context ready =
    let (s, e, cases, _) = initialize_cases D ids succeeds r context ready in
    let stack = reverse s.runtime.active_modules in
    let (none', all) = terminate_each_lem D stack in
    let split =
      initialized_of-append s.calls (terminate_each D stack)
      ∙ rw none' (append-nil (initialized_of s.calls)) in
    let split' =
      terminated_of-append s.calls (terminate_each D stack)
      ∙ ap (λ l. terminated_of s.calls ++ l) all in
    elim cases [
      | inl (_, o) ↦ (
        s,
        e,
        split'
            ∙ ap₂ ◌++◌ (ap terminated_of o.calls ∙ o.traced.terminated)
                (ap reverse (o.active ∙ up_active ready o))
            ∙ sym (
                ap reverse (split ∙ ap initialized_of o.calls ∙ o.traced.initialized)
                ∙ reverse-append o.traced.up (list_of o.progress.failed)
                ∙ ap (λ l. l ++ reverse o.traced.up) (reverse-list_of o.progress.failed)),
        refl,
      )
      | inr f ↦ (
        s,
        e,
        split'
            ∙ ap₂ ◌++◌ (ap terminated_of f.no_calls)
                (ap reverse (f.same_active ∙ (register_context-same D r context).0 ∙ ready.idle))
            ∙ sym (ap reverse (split ∙ ap initialized_of f.no_calls)),
        refl,
      )
    ]
