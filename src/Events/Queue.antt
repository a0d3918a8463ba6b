-- ===== src/Events/Queue.antt =====
-- Queued events: the order in which a drain emits them, and what it leaves in the queue.
use mathlib.Core.List.{append_assoc, append-nil}
use mathlib.Core.Path.{ap₂}
use tge_core.Prelude.{ℕ, ◌≡◌, refl, ◌∙◌, ap, sym, subst, true, List, [], ◌∷◌, ◌++◌, All}
use tge_core.Events.{
  System, Queued, Handlers, get_snapshot, call_all, emit_erased, queue_erased, drain,
  dispatch_queued,
}
use tge_core.Events.Invariant.{Inv, subscribers, handles_of}
use tge_core.Events.Dispatch.{
  IsQuiet, get_snapshot-Inv, get_snapshot-listed, get_snapshot_keeps, emit_erased-call_all,
  subscribers_alive,
}
use tge_core.Events.Emit.{emit_erased_quiet}

-- Events queued one after the other.
abbrev pub queue_all : System → List Queued → System
queue_all s [] = s
queue_all s (q ∷ qs) = queue_all (queue_erased s q) qs

-- A handler queues these events for a payload, in this order.
abbrev pub QueuesAs : Handlers → (ℕ → ℕ → List Queued) → Type 0
QueuesAs code queued_by =
    (h payload : ℕ) (s : System)
    → (code h payload s).queue ≡ (queue_all s (queued_by h payload)).queue

-- What these handlers queue when they are called with a payload.
abbrev pub queued_by_all : (ℕ → ℕ → List Queued) → ℕ → List ℕ → List Queued
queued_by_all queued_by payload [] = []
queued_by_all queued_by payload (h ∷ hs) = queued_by h payload ++ queued_by_all queued_by payload hs

-- What the subscribers of these events queue when they are called.
abbrev pub queued_meanwhile : (ℕ → ℕ → List Queued) → System → List Queued → List Queued
queued_meanwhile queued_by s [] = []
queued_meanwhile queued_by s (q ∷ qs) =
    queued_by_all queued_by q.payload (subscribers s q.event_type)
    ++ queued_meanwhile queued_by s qs

-- The subscribers that a drain has to call, event by event.
abbrev pub all_subscribers : System → List Queued → List ℕ
all_subscribers s [] = []
all_subscribers s (q ∷ qs) = subscribers s q.event_type ++ all_subscribers s qs

queue_all_lem :
    (s : System) (qs : List Queued) → queue_all s qs ≡ record s { queue = s.queue ++ qs }
unfolding queue_erased
queue_all_lem s [] = ap (λ l. record s { queue = l }) (sym (append-nil s.queue))
queue_all_lem s (q ∷ qs) =
    queue_all_lem (queue_erased s q) qs
    ∙ ap (λ l. record s { queue = l }) (append_assoc s.queue (q ∷ []) qs)

with_queue-Inv : (s : System) (qs : List Queued) → Inv s → Inv (record s { queue = qs })
with_queue-Inv s qs v = record {
  slots = v.slots;
  keys = v.keys;
  older = v.older;
  placed = v.placed;
}

call_all-queue :
    (code : Handlers) (queued_by : ℕ → ℕ → List Queued) (payload : ℕ) (hs : List ℕ) (s : System)
    → IsQuiet code
    → QueuesAs code queued_by
    → Inv s
    → All (λ h. s.alive h ≡ true) hs
    → (call_all code payload hs s).0.queue ≡ s.queue ++ queued_by_all queued_by payload hs
unfolding call_all
call_all-queue code queued_by payload [] s quiet q v alive = sym (append-nil s.queue)
call_all-queue code queued_by payload (h ∷ hs) s quiet q v alive =
    let (v', flags, _) = quiet h payload s v in
    let alive' = subst (λ f. All (λ k. f k ≡ true) hs) (sym flags) alive.1 in
    let first =
      q h payload s ∙ ap (λ (w : System). w.queue) (queue_all_lem s (queued_by h payload)) in
    rw (alive.0, call_all)
      (call_all-queue code queued_by payload hs (code h payload s) quiet q v' alive'
        ∙ ap (λ l. l ++ queued_by_all queued_by payload hs) first
        ∙ append_assoc s.queue (queued_by h payload) (queued_by_all queued_by payload hs))

emit_erased-queue :
    (code : Handlers) (queued_by : ℕ → ℕ → List Queued) (s : System) (t payload : ℕ)
    → IsQuiet code
    → QueuesAs code queued_by
    → Inv s
    → (emit_erased code s t payload).0.queue
      ≡ s.queue ++ queued_by_all queued_by payload (subscribers s t)
emit_erased-queue code queued_by s t payload quiet q v =
    let (flags, _, same) = get_snapshot_keeps s t in
    rw (emit_erased-call_all code s t payload, get_snapshot-listed s t v)
      (call_all-queue code queued_by payload (subscribers s t) (get_snapshot s t).0 quiet q
          (get_snapshot-Inv s t v)
          (subst (λ f. All (λ h. f h ≡ true) (subscribers s t)) (sym flags)
            (subscribers_alive s t v))
        ∙ ap (λ l. l ++ queued_by_all queued_by payload (subscribers s t)) same)

drain_lem :
    (code : Handlers) (queued_by : ℕ → ℕ → List Queued) (qs : List Queued) (s s' : System)
    → IsQuiet code
    → QueuesAs code queued_by
    → Inv s
    → s.subscriptions ≡ s'.subscriptions
    → ((drain code qs s).1 ≡ all_subscribers s' qs)
      × ((drain code qs s).0.queue ≡ s.queue ++ queued_meanwhile queued_by s' qs)
unfolding drain
drain_lem code queued_by [] s s' quiet q v e = (refl, sym (append-nil s.queue))
drain_lem code queued_by (x ∷ qs) s s' quiet q v e =
    let (calls, v', subs) = emit_erased_quiet code s x.event_type x.payload quiet v in
    let same : subscribers s x.event_type ≡ subscribers s' x.event_type =
      ap (handles_of x.event_type) e in
    let (calls', left) =
      drain_lem code queued_by qs (emit_erased code s x.event_type x.payload).0 s' quiet q v'
        (subs ∙ e) in
    (
      ap₂ ◌++◌ (calls ∙ same) calls',
      left
          ∙ ap (λ l. l ++ queued_meanwhile queued_by s' qs)
              (emit_erased-queue code queued_by s x.event_type x.payload quiet q v
                ∙ ap (λ l. s.queue ++ queued_by_all queued_by x.payload l) same)
          ∙ append_assoc s.queue (queued_by_all queued_by x.payload (subscribers s' x.event_type))
              (queued_meanwhile queued_by s' qs),
    )

-- A drain emits the events in the order in which they were queued, those that were there first, each
-- to all subscribers of its type in the order of their subscriptions. What the handlers queue
-- meanwhile is not emitted by it: the queue it leaves is exactly this, in the order of the calls. The
-- system is well formed, the handlers leave the subscriptions alone, and what each of them queues is
-- determined by the payload.
pub dispatch_queued_lem :
    (code : Handlers) (queued_by : ℕ → ℕ → List Queued) (s : System) (qs : List Queued)
    → IsQuiet code
    → QueuesAs code queued_by
    → Inv s
    → ((dispatch_queued code (queue_all s qs)).1 ≡ all_subscribers s (s.queue ++ qs))
      × ((dispatch_queued code (queue_all s qs)).0.queue
          ≡ queued_meanwhile queued_by s (s.queue ++ qs))
unfolding dispatch_queued
dispatch_queued_lem code queued_by s qs quiet q v = rw (queue_all_lem s qs) (
    drain_lem code queued_by (s.queue ++ qs) (record s { queue = [] }) s quiet q
      (with_queue-Inv s [] v) refl)
