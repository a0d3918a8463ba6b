-- ===== src/Events/Emit.antt =====
-- Emissions: what they call, and in which order.
use mathlib.Core.List.{Sublist}
use mathlib.Core.List.Sublist
use tge_core.Prelude.{ℕ, ◌≡◌, ◌∙◌, sym, subst, true, List, [], ◌∷◌, Bool-cases, inl, inr, All}
use tge_core.Events.{System, Handlers, get_snapshot, call_all, emit_erased}
use tge_core.Events.Invariant.{Inv, subscribers}
use tge_core.Events.Dispatch.{
  IsQuiet, get_snapshot-Inv, get_snapshot-listed, get_snapshot_keeps, call_all_quiet,
  emit_erased-call_all, subscribers_alive,
}

-- An emission calls every subscriber of its type once, in the order in which they subscribed, if the
-- handlers neither subscribe nor unsubscribe. It keeps the system well formed.
pub emit_erased_quiet :
    (code : Handlers) (s : System) (t payload : ℕ)
    → IsQuiet code
    → Inv s
    → ((emit_erased code s t payload).1 ≡ subscribers s t)
      × Inv (emit_erased code s t payload).0
      × ((emit_erased code s t payload).0.subscriptions ≡ s.subscriptions)
emit_erased_quiet code s t payload quiet v =
    rw (emit_erased-call_all code s t payload, get_snapshot-listed s t v)
      (
        (call_all_quiet code payload (subscribers s t) s' quiet v' alive).0,
        (call_all_quiet code payload (subscribers s t) s' quiet v' alive).1,
        (call_all_quiet code payload (subscribers s t) s' quiet v' alive).2 ∙ keeps.1,
      )
  where
    s' : System
    s' = (get_snapshot s t).0

    v' : Inv s'
    v' = get_snapshot-Inv s t v

    keeps : (s'.alive ≡ s.alive) × (s'.subscriptions ≡ s.subscriptions) × (s'.queue ≡ s.queue)
    keeps = get_snapshot_keeps s t

    alive : All (λ h. s'.alive h ≡ true) (subscribers s t)
    alive =
        subst (λ f. All (λ h. f h ≡ true) (subscribers s t)) (sym keeps.0) (subscribers_alive s t v)

call_all-Sublist :
    (code : Handlers) (payload : ℕ) (hs : List ℕ) (s : System)
    → Sublist (call_all code payload hs s).1 hs
unfolding call_all
call_all-Sublist code payload [] s = Sublist.refl []
call_all-Sublist code payload (h ∷ hs) s = elim (Bool-cases (s.alive h)) [
  | inl e ↦
      rw (e, call_all) (Sublist.cons-cons h (call_all-Sublist code payload hs (code h payload s)))
  | inr e ↦ rw (e, call_all) (Sublist.cons h (call_all-Sublist code payload hs s))
]

-- Whatever the handlers do, an emission calls only handles that were subscribed to its type when it
-- began, each at most once, and in the order in which they subscribed.
pub emit_erased-Sublist :
    (code : Handlers) (s : System) (t payload : ℕ)
    → Inv s
    → Sublist (emit_erased code s t payload).1 (subscribers s t)
emit_erased-Sublist code s t payload v =
    rw (emit_erased-call_all code s t payload, get_snapshot-listed s t v)
      (call_all-Sublist code payload (subscribers s t) (get_snapshot s t).0)
