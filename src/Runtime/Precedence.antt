-- ===== src/Runtime/Precedence.antt =====
-- What has happened when a module is initialized.
use mathlib.Core.List.{append_assoc}
use tge_core.Prelude.{
  ◌≡◌, sym, ap, ◌∙◌, inl, inr, Bool, true, List, [], ◌∷◌, ◌++◌, Option, none, some, Mem,
}
use tge_core.Modules.{Module, ModuleIds}
use tge_core.Modules.Graph.{depends_on}
use tge_core.Runtime.{Runtime, RunContext, ModuleCall, initializes, Started, initialize}
use tge_core.Runtime.Traces.{initialized_of, initialized_of-append, list_of}
use tge_core.Runtime.LifeCycle.{IsReady, registered, initialize_cases}

-- The calls before a module's initialization have initialized every registered module that it
-- depends on as Required or Optional. The runtime had no active module, and the registered modules
-- have distinct ids and fewer than 2^32 - 1 dependencies each.
pub initialize_precedes :
    (D : Type 0) (ids : ModuleIds) (succeeds : Module → Bool) (r : Runtime) (context : RunContext)
    (s : Started D) (xs ys : List (ModuleCall D)) (m d : Module)
    → IsReady D r context
    → initialize D ids succeeds r context ≡ some s
    → s.calls ≡ xs ++ initializes m ∷ ys
    → Mem d (registered D r context).modules
    → depends_on m d ≡ true
    → Mem d (initialized_of xs)
initialize_precedes D ids succeeds r context s xs ys m d ready e trace mem dep =
    let (s', e', cases, _) = initialize_cases D ids succeeds r context ready in
    let same : s'.calls ≡ s.calls = ap calls_of (sym e' ∙ e) in
    let split = ap initialized_of (same ∙ trace) ∙ initialized_of-append xs (initializes m ∷ ys) in
    elim cases [
      | inl (_, o) ↦
          o.sorted.1 (initialized_of xs) (initialized_of ys ++ o.traced.unreached) m d
            (o.traced.parts
              ∙ sym (append_assoc o.traced.up (list_of o.progress.failed) o.traced.unreached)
              ∙ ap (λ l. l ++ o.traced.unreached)
                  (sym (ap initialized_of o.calls ∙ o.traced.initialized) ∙ split)
              ∙ append_assoc (initialized_of xs) (m ∷ initialized_of ys) o.traced.unreached)
            mem dep
      | inr f ↦ absurd (nil-ne-split xs ys m (sym f.no_calls ∙ same ∙ trace))
    ]
  where
    calls_of : Option (Started D) → List (ModuleCall D)
    calls_of none = []
    calls_of (some s) = s.calls

    nil-ne-split : (xs ys : List (ModuleCall D)) (m : Module) → [] ≡ xs ++ initializes m ∷ ys → ⊥
    nil-ne-split [] ys m e = cc
    nil-ne-split (x ∷ xs) ys m e = cc
