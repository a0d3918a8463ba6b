-- ===== src/Events/Tests.antt =====
-- Runs of the event system.
use mathlib.Core.List.{Sublist}
use tge_core.Prelude.{
  ℕ, ◌==◌, ◌+◌, Bool-cases, inl, inr, ◌≡◌, refl, List, [], ◌∷◌, arith, if◌then◌else◌, Mem,
}
use tge_core.Events.{
  System, Handlers, Queued, find_type, initial, subscribe_erased, unsubscribe, emit_erased,
  call_all, queue_erased, dispatch_queued,
}
use tge_core.Events.Invariant.{Inv, subscribers, initial-Inv, subscribe_erased-Inv}
use tge_core.Events.Dispatch.{IsQuiet}
use tge_core.Events.History.{subscribes, unsubscribes, after, expected, emit_after}
use tge_core.Events.Emit.{emit_erased_quiet, emit_erased-Sublist}
use tge_core.Events.Changes
use tge_core.Events.Queue.{queue_all, dispatch_queued_lem}
use tge_core.Events.Unsubscribe.{unsubscribe-Inv}

-- Handlers that leave the system alone, and handlers of which the first unsubscribes the second.
abbrev idle : Handlers
idle h payload s = s

idle-IsQuiet : IsQuiet idle
idle-IsQuiet h payload s v = (v, refl, refl)

abbrev hostile : Handlers
hostile h payload s = if h == 1 then unsubscribe s 2 else s

abbrev both : System
both = (subscribe_erased (subscribe_erased initial 5).0 5).0

both-Inv : Inv both
unfolding subscribe_erased initial
both-Inv =
    subscribe_erased-Inv (subscribe_erased initial 5).0 5 (omega arith)
      (subscribe_erased-Inv initial 5 (omega arith) initial-Inv)

emit_after_example :
    (emit_erased idle
      (after (subscribes 5 ∷ subscribes 7 ∷ subscribes 5 ∷ unsubscribes 1 ∷ []) initial)
      5
      9).1
    ≡ 3 ∷ []
unfolding expected
emit_after_example =
    emit_after idle (subscribes 5 ∷ subscribes 7 ∷ subscribes 5 ∷ unsubscribes 1 ∷ []) 5 9
      idle-IsQuiet (omega arith)

emit_erased_quiet_example :
    ((emit_erased idle both 5 9).1 ≡ subscribers both 5)
    × Inv (emit_erased idle both 5 9).0
    × ((emit_erased idle both 5 9).0.subscriptions ≡ both.subscriptions)
emit_erased_quiet_example = emit_erased_quiet idle both 5 9 idle-IsQuiet both-Inv

emit_erased-Sublist_example : Sublist (emit_erased hostile both 5 9).1 (subscribers both 5)
emit_erased-Sublist_example = emit_erased-Sublist hostile both 5 9 both-Inv

-- The second handler of a dispatch is not called when the first unsubscribes it.
skips_unsubscribed : (emit_erased hostile both 5 9).1 ≡ 1 ∷ []
unfolding emit_erased subscribe_erased initial unsubscribe
skips_unsubscribed = refl

unsubscribe-Inv_example : Inv (unsubscribe both 1)
unsubscribe-Inv_example = unsubscribe-Inv both 1 both-Inv

-- The first handler unsubscribes the second and subscribes a new one.
abbrev script : Changes.Script
script h payload s = if h == 1 then Changes.unsubscribes 2 ∷ Changes.subscribes 5 ∷ [] else []

script-SubscribesUpTo : Changes.SubscribesUpTo 1 script
script-SubscribesUpTo h payload s = elim (Bool-cases (h == 1)) [
  | inl e ↦ rw e (omega arith)
  | inr e ↦ rw e (omega arith)
]

call_all_unsubscribed_example :
    (rest : List ℕ) × ((call_all (Changes.run_script script) 9 (1 ∷ 2 ∷ []) both).1 ≡ 1 ∷ rest)
    × (¬ Mem 2 rest)
unfolding subscribe_erased initial unsubscribe find_type
call_all_unsubscribed_example =
    Changes.call_all_unsubscribed script 1 9 1 2 5 (2 ∷ []) both [] (Changes.subscribes 5 ∷ []) refl
      refl refl (omega arith) script-SubscribesUpTo (omega arith)

-- Handlers of which the first queues an event of the same type.
abbrev queueing : ℕ → ℕ → List Queued
queueing h payload = if h == 1 then record { event_type = 5; payload = payload + 1 } ∷ [] else []

abbrev busy : Handlers
busy h payload s = queue_all s (queueing h payload)

busy-IsQuiet : IsQuiet busy
unfolding queue_erased
busy-IsQuiet h payload s v = elim (Bool-cases (h == 1)) [
  | inl e ↦
      rw e
        (record { slots = v.slots; keys = v.keys; older = v.older; placed = v.placed }, refl, refl)
  | inr e ↦ rw e (v, refl, refl)
]

abbrev two_events : List Queued
two_events = record { event_type = 5; payload = 9 } ∷ record { event_type = 7; payload = 3 } ∷ []

dispatch_queued_lem_example :
    ((dispatch_queued busy (queue_all both two_events)).1 ≡ 1 ∷ 2 ∷ [])
    × ((dispatch_queued busy (queue_all both two_events)).0.queue
        ≡ record { event_type = 5; payload = 10 } ∷ [])
unfolding subscribe_erased initial
dispatch_queued_lem_example =
    dispatch_queued_lem busy queueing both two_events busy-IsQuiet (λ h payload s. refl) both-Inv
