-- ===== src/Runtime/Traces.antt =====
-- What a list of calls initializes and terminates.
use mathlib.Core.List.{reverse, append-nil, append_assoc}
use tge_core.Prelude.{
  ◌≡◌, refl, ap, sym, ◌∙◌, All, Bool, true, false, List, [], ◌∷◌, ◌++◌, Option, none, some, not,
  ◌&&◌, Bool-cases, inl, inr, ◌==◌,
}
use tge_core.Modules.{Module}
use tge_core.Runtime.{
  ModuleCall, initializes, terminates, dependency_initialized, dependency_terminating, updates,
  declares, notify_dependents_initialized, notify_dependents_terminating, initialize_each,
  terminate_each, Progress,
}

module _ {D : Type 0} where
  -- The modules that are initialized, and those that are terminated, in order.
  abbrev pub initialized_of : List (ModuleCall D) → List Module
  initialized_of [] = []
  initialized_of (initializes m ∷ cs) = m ∷ initialized_of cs
  initialized_of (terminates m ∷ cs) = initialized_of cs
  initialized_of (dependency_initialized m d ∷ cs) = initialized_of cs
  initialized_of (dependency_terminating m d ∷ cs) = initialized_of cs
  initialized_of (updates m phase delta ∷ cs) = initialized_of cs

  abbrev pub terminated_of : List (ModuleCall D) → List Module
  terminated_of [] = []
  terminated_of (initializes m ∷ cs) = terminated_of cs
  terminated_of (terminates m ∷ cs) = m ∷ terminated_of cs
  terminated_of (dependency_initialized m d ∷ cs) = terminated_of cs
  terminated_of (dependency_terminating m d ∷ cs) = terminated_of cs
  terminated_of (updates m phase delta ∷ cs) = terminated_of cs

  pub initialized_of-append :
      (cs ds : List (ModuleCall D))
      → initialized_of (cs ++ ds) ≡ initialized_of cs ++ initialized_of ds
  initialized_of-append [] ds = refl
  initialized_of-append (initializes m ∷ cs) ds = ap (λ l. m ∷ l) (initialized_of-append cs ds)
  initialized_of-append (terminates m ∷ cs) ds = initialized_of-append cs ds
  initialized_of-append (dependency_initialized m d ∷ cs) ds = initialized_of-append cs ds
  initialized_of-append (dependency_terminating m d ∷ cs) ds = initialized_of-append cs ds
  initialized_of-append (updates m phase delta ∷ cs) ds = initialized_of-append cs ds

  pub terminated_of-append :
      (cs ds : List (ModuleCall D))
      → terminated_of (cs ++ ds) ≡ terminated_of cs ++ terminated_of ds
  terminated_of-append [] ds = refl
  terminated_of-append (initializes m ∷ cs) ds = terminated_of-append cs ds
  terminated_of-append (terminates m ∷ cs) ds = ap (λ l. m ∷ l) (terminated_of-append cs ds)
  terminated_of-append (dependency_initialized m d ∷ cs) ds = terminated_of-append cs ds
  terminated_of-append (dependency_terminating m d ∷ cs) ds = terminated_of-append cs ds
  terminated_of-append (updates m phase delta ∷ cs) ds = terminated_of-append cs ds

abbrev pub list_of : Option Module → List Module
list_of none = []
list_of (some m) = m ∷ []

module _ (D : Type 0) where
  -- A notification neither initializes nor terminates.
  notified_initialized :
      (ms : List Module) (m : Module)
      → (initialized_of (notify_dependents_initialized D ms m) ≡ [])
        × (terminated_of (notify_dependents_initialized D ms m) ≡ [])
  unfolding notify_dependents_initialized
  notified_initialized [] m = (refl, refl)
  notified_initialized (x ∷ ms) m = elim (Bool-cases (declares x m)) [
    | inl e ↦ rw e (notified_initialized ms m)
    | inr e ↦ rw e (notified_initialized ms m)
  ]

  notified_terminating :
      (ms : List Module) (m : Module)
      → (initialized_of (notify_dependents_terminating D ms m) ≡ [])
        × (terminated_of (notify_dependents_terminating D ms m) ≡ [])
  unfolding notify_dependents_terminating
  notified_terminating [] m = (refl, refl)
  notified_terminating (x ∷ ms) m =
      elim (Bool-cases (not (x.address == m.address) && declares x m)) [
        | inl e ↦ rw e (notified_terminating ms m)
        | inr e ↦ rw e (notified_terminating ms m)
      ]

  pub terminate_each_lem :
      (stack : List Module)
      → (initialized_of (terminate_each D stack) ≡ [])
        × (terminated_of (terminate_each D stack) ≡ stack)
  unfolding terminate_each
  terminate_each_lem [] = (refl, refl)
  terminate_each_lem (m ∷ rest) =
      let (quiet, quiet') = notified_terminating (reverse (m ∷ rest)) m in
      let (none', all) = terminate_each_lem rest in
      let calls = terminates m ∷ terminate_each D rest in
      (
        initialized_of-append (notify_dependents_terminating D (reverse (m ∷ rest)) m) calls
            ∙ rw (quiet, none'),
        terminated_of-append (notify_dependents_terminating D (reverse (m ∷ rest)) m) calls
            ∙ rw (quiet', all),
      )

  -- What the initialization of a list of modules did: those that came up, and the one that failed,
  -- which is terminated at once. Behind them are those that were not reached.
  pub record Traced (succeeds : Module → Bool) (ms active : List Module) (p : Progress D)
      : Type 0 where
    pub up : List Module
    pub unreached : List Module
    pub parts : ms ≡ up ++ (list_of p.failed ++ unreached)
    pub now_active : p.active ≡ active ++ up
    pub initialized : initialized_of p.calls ≡ up ++ list_of p.failed
    pub terminated : terminated_of p.calls ≡ list_of p.failed
    pub complete : p.failed ≡ none → unreached ≡ []
    pub good : All (λ m. succeeds m ≡ true) up
    pub bad : All (λ m. succeeds m ≡ false) (list_of p.failed)

  pub initialize_each-Traced :
      (succeeds : Module → Bool) (all ms active : List Module)
      → Traced succeeds ms active (initialize_each D succeeds all ms active)
  unfolding initialize_each
  initialize_each-Traced succeeds all [] active = record {
    up = [];
    unreached = [];
    parts = refl;
    now_active = sym (append-nil active);
    initialized = refl;
    terminated = refl;
    complete = λ _. refl;
    good = tt;
    bad = tt;
  }
  initialize_each-Traced succeeds all (m ∷ ms) active = elim (Bool-cases (succeeds m)) [
    | inl e ↦
        let ih = initialize_each-Traced succeeds all ms (active ++ m ∷ []) in
        let (quiet, quiet') = notified_initialized all m in
        let notes = notify_dependents_initialized D all m in
        let later = (initialize_each D succeeds all ms (active ++ m ∷ [])).calls in
        rw (e, initialize_each)
          (record {
            up = m ∷ ih.up;
            unreached = ih.unreached;
            parts = ap (λ l. m ∷ l) ih.parts;
            now_active = ih.now_active ∙ append_assoc active (m ∷ []) ih.up;
            initialized =
                ap (λ l. m ∷ l)
                  (initialized_of-append notes later
                    ∙ ap (λ l. l ++ initialized_of later) quiet
                    ∙ ih.initialized);
            terminated =
                terminated_of-append notes later
                ∙ ap (λ l. l ++ terminated_of later) quiet'
                ∙ ih.terminated;
            complete = ih.complete;
            good = (e, ih.good);
            bad = ih.bad;
          })
    | inr e ↦
        rw (e, initialize_each)
          (record {
            up = [];
            unreached = ms;
            parts = refl;
            now_active = sym (append-nil active);
            initialized = refl;
            terminated = refl;
            complete = λ h. cc;
            good = tt;
            bad = (e, tt);
          })
  ]
