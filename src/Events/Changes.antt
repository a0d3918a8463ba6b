-- ===== src/Events/Changes.antt =====
-- Handlers that change the subscriptions while the loop over a snapshot runs.
use mathlib.Core.List.{mem-cons, not-mem-nil}
use mathlib.Core.Logic.Or
use mathlib.Core.HLevel.{⊥_prop}
use tge_core.Prelude.{
  ℕ, suc, ◌+◌, ◌*◌, ◌≤◌, ◌<◌, ◌≡◌, refl, ◌∙◌, ap, true, false, List, [], ◌∷◌, ◌++◌, some,
  Bool-cases, Option-cases, inl, inr, Mem, length, arith,
}
use tge_core.Prelude.Words.{u64_mod}
use tge_core.Events.{
  System, Queued, Handlers, find_type, subscribe_erased, unsubscribe, get_snapshot, queue_erased,
  call_all,
}
use tge_core.Events.Dispatch.{get_snapshot_keeps}

-- What a handler's code may do to the system. An emission from a handler takes a snapshot, and what
-- else it does are the changes of the handlers that it calls.
pub data Change : Type 0 where
  subscribes unsubscribes snapshots : ℕ → Change
  queues : Queued → Change

abbrev pub change : System → Change → System
change s (subscribes event_type) = (subscribe_erased s event_type).0
change s (unsubscribes handle) = unsubscribe s handle
change s (snapshots event_type) = (get_snapshot s event_type).0
change s (queues q) = queue_erased s q

abbrev pub change_all : System → List Change → System
change_all s [] = s
change_all s (c ∷ cs) = change_all (change s c) cs

abbrev pub subscriptions_in : List Change → ℕ
subscriptions_in [] = 0
subscriptions_in (subscribes event_type ∷ cs) = suc (subscriptions_in cs)
subscriptions_in (unsubscribes handle ∷ cs) = subscriptions_in cs
subscriptions_in (snapshots event_type ∷ cs) = subscriptions_in cs
subscriptions_in (queues q ∷ cs) = subscriptions_in cs

-- The changes that a handler makes, which it may choose by what it sees.
abbrev pub Script : Type 0
Script = ℕ → ℕ → System → List Change

abbrev pub run_script : Script → Handlers
run_script script h payload s = change_all s (script h payload s)

-- A handle was given before, and so many more can be given.
Given : ℕ → ℕ → System → Type 0
Given g more s = (g < s.next_handle) × (s.next_handle + more < u64_mod)

subscribe_erased-flag :
    (s : System) (t g more : ℕ)
    → Given g (suc more) s
    → Given g more (subscribe_erased s t).0 × ((subscribe_erased s t).0.alive g ≡ s.alive g)
unfolding Given subscribe_erased
subscribe_erased-flag s t g more given =
    ((omega (arith, given), omega (arith, given)), ground (arith, given))

unsubscribe-flag :
    (s : System) (handle g more : ℕ)
    → Given g more s
    → s.alive g ≡ false
    → Given g more (unsubscribe s handle) × ((unsubscribe s handle).alive g ≡ false)
unfolding Given unsubscribe
unsubscribe-flag s handle g more given down =
    elim (Option-cases (find_type handle s.subscriptions)) [
      | inl e ↦ rw (e, unsubscribe) (given, down)
      | inr (t, e) ↦ rw (e, unsubscribe) (given, ground (arith, down))
    ]

unsubscribe-Given :
    (s : System) (handle g more : ℕ) → Given g more s → Given g more (unsubscribe s handle)
unfolding Given unsubscribe
unsubscribe-Given s handle g more given = elim (Option-cases (find_type handle s.subscriptions)) [
  | inl e ↦ rw (e, unsubscribe) given
  | inr (t, e) ↦ rw (e, unsubscribe) given
]

get_snapshot-Given :
    (s : System) (t g more : ℕ) → Given g more s → Given g more (get_snapshot s t).0
unfolding Given get_snapshot
get_snapshot-Given s t g more given = ground (arith, given)

change_all-Given :
    (s : System) (cs : List Change) (g more : ℕ)
    → Given g (subscriptions_in cs + more) s
    → Given g more (change_all s cs)
unfolding Given queue_erased
change_all-Given s [] g more given = (given.0, omega (arith, given.1))
change_all-Given s (subscribes t ∷ cs) g more given =
    change_all-Given (subscribe_erased s t).0 cs g more
      (subscribe_erased-flag s t g (subscriptions_in cs + more) (given.0, omega (arith, given.1))).0
change_all-Given s (unsubscribes h ∷ cs) g more given =
    change_all-Given (unsubscribe s h) cs g more
      (unsubscribe-Given s h g (subscriptions_in cs + more) given)
change_all-Given s (snapshots t ∷ cs) g more given =
    change_all-Given (get_snapshot s t).0 cs g more
      (get_snapshot-Given s t g (subscriptions_in cs + more) given)
change_all-Given s (queues q ∷ cs) g more given =
    change_all-Given (queue_erased s q) cs g more given

-- An entry that is dead stays dead: a new subscription has a handle that was not given before.
change_all_down :
    (s : System) (cs : List Change) (g more : ℕ)
    → Given g (subscriptions_in cs + more) s
    → s.alive g ≡ false
    → (change_all s cs).alive g ≡ false
unfolding Given queue_erased
change_all_down s [] g more given down = down
change_all_down s (subscribes t ∷ cs) g more given down =
    let (given', same) =
      subscribe_erased-flag s t g (subscriptions_in cs + more) (given.0, omega (arith, given.1)) in
    change_all_down (subscribe_erased s t).0 cs g more given' (same ∙ down)
change_all_down s (unsubscribes h ∷ cs) g more given down =
    let (given', down') = unsubscribe-flag s h g (subscriptions_in cs + more) given down in
    change_all_down (unsubscribe s h) cs g more given' down'
change_all_down s (snapshots t ∷ cs) g more given down =
    change_all_down (get_snapshot s t).0 cs g more
      (get_snapshot-Given s t g (subscriptions_in cs + more) given)
      (ap (λ f. f g) (get_snapshot_keeps s t).0 ∙ down)
change_all_down s (queues q ∷ cs) g more given down =
    change_all_down (queue_erased s q) cs g more given down

-- No call of the handler subscribes more often than this.
abbrev pub SubscribesUpTo : ℕ → Script → Type 0
SubscribesUpTo most script =
    (h payload : ℕ) (s : System) → subscriptions_in (script h payload s) ≤ most

give_fewer : (s : System) (g more less : ℕ) → less ≤ more → Given g more s → Given g less s
unfolding Given
give_fewer s g more less le given = (given.0, omega (arith, given.1))

call_all_down :
    (script : Script) (most payload g : ℕ) (hs : List ℕ) (s : System)
    → SubscribesUpTo most script
    → Given g (most * length hs) s
    → s.alive g ≡ false
    → ¬ Mem g (call_all (run_script script) payload hs s).1
unfolding call_all
call_all_down script most payload g [] s few given down = not-mem-nil
call_all_down script most payload g (h ∷ hs) s few given down = elim (Bool-cases (s.alive h)) [
  | inl up ↦
      let cs = script h payload s in
      let rest = most * length hs in
      let enough =
        give_fewer s g (most * suc (length hs)) (subscriptions_in cs + rest)
          (omega (arith, few h payload s)) given in
      rw (up, call_all)
        (λ m.
          Or.elim ⊥_prop (mem-cons.0 m) (λ same. cc)
            (call_all_down script most payload g hs (change_all s cs) few
              (change_all-Given s cs g rest enough) (change_all_down s cs g rest enough down)))
  | inr dead ↦
      rw (dead, call_all)
        (call_all_down script most payload g hs s few
          (give_fewer s g (most * suc (length hs)) (most * length hs) (omega arith) given) down)
]

change_all-append :
    (s : System) (before after : List Change)
    → change_all s (before ++ after) ≡ change_all (change_all s before) after
change_all-append s [] after = refl
change_all-append s (c ∷ cs) after = change_all-append (change s c) cs after

subscriptions_in-append :
    (before after : List Change)
    → subscriptions_in (before ++ after) ≡ subscriptions_in before + subscriptions_in after
subscriptions_in-append [] after = omega arith
subscriptions_in-append (subscribes t ∷ cs) after = omega (arith, subscriptions_in-append cs after)
subscriptions_in-append (unsubscribes h ∷ cs) after = subscriptions_in-append cs after
subscriptions_in-append (snapshots t ∷ cs) after = subscriptions_in-append cs after
subscriptions_in-append (queues q ∷ cs) after = subscriptions_in-append cs after

-- `Unsubscribe` of a handle that is subscribed puts the flag of its entry down.
unsubscribe_down :
    (s : System) (g t : ℕ)
    → find_type g s.subscriptions ≡ some t
    → (unsubscribe s g).alive g ≡ false
unfolding unsubscribe
unsubscribe_down s g t found = rw (unsubscribe, found) (ground arith)

script_down :
    (s : System) (before after : List Change) (g t more : ℕ)
    → find_type g (change_all s before).subscriptions ≡ some t
    → Given g (subscriptions_in (before ++ unsubscribes g ∷ after) + more) s
    → (change_all s (before ++ unsubscribes g ∷ after)).alive g ≡ false
script_down s before after g t more found given =
    let sum = subscriptions_in-append before (unsubscribes g ∷ after) in
    let middle = change_all-Given s before g (subscriptions_in after + more) (
      give_fewer s g (subscriptions_in (before ++ unsubscribes g ∷ after) + more)
        (subscriptions_in before + (subscriptions_in after + more)) (omega (arith, sum)) given) in
    ap (λ (w : System). w.alive g) (change_all-append s before (unsubscribes g ∷ after))
    ∙ change_all_down (unsubscribe (change_all s before) g) after g more
        (unsubscribe-Given (change_all s before) g g (subscriptions_in after + more) middle)
        (unsubscribe_down (change_all s before) g t found)

-- A handler that unsubscribes a handle during a dispatch, its own or another, among whatever else it
-- does: the handle is not called later in the same dispatch, although it may be on the list being
-- walked. The handle was given before the dispatch and is subscribed when it is unsubscribed; this
-- handler and the later ones may subscribe, unsubscribe, queue and emit as they see fit, with a
-- bound on the subscriptions of a call for which the counter of the handles does not wrap.
pub call_all_unsubscribed :
    (script : Script) (most payload h g t : ℕ) (hs : List ℕ) (s : System)
    (before after : List Change)
    → s.alive h ≡ true
    → script h payload s ≡ before ++ unsubscribes g ∷ after
    → find_type g (change_all s before).subscriptions ≡ some t
    → g < s.next_handle
    → SubscribesUpTo most script
    → s.next_handle + most * suc (length hs) < u64_mod
    → (rest : List ℕ) × ((call_all (run_script script) payload (h ∷ hs) s).1 ≡ h ∷ rest)
      × (¬ Mem g rest)
unfolding call_all Given
call_all_unsubscribed script most payload h g t hs s before after up e found older few wraps =
    let cs = before ++ unsubscribes g ∷ after in
    let enough : Given g (subscriptions_in cs + most * length hs) s =
      (older, omega (arith, few h payload s, ap subscriptions_in e)) in
    let down = script_down s before after g t (most * length hs) found enough in
    let given = change_all-Given s cs g (most * length hs) enough in
    (
      (call_all (run_script script) payload hs (change_all s (script h payload s))).1,
      rw (up, call_all) refl,
      rw e (call_all_down script most payload g hs (change_all s cs) few given down),
    )
