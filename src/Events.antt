-- ===== src/Events.antt =====
-- private/events/system.hpp and system.cpp: the event system. A handler entry is shared by a slot,
-- its snapshots and its subscription; it is named by its handle, and `alive` holds the entries'
-- flags. `m_subscriptions` is a list of handles with their types, the newest last. What a handler's
-- code does to the system is a parameter. Each function is one step of its lock.
pub mod Slots
pub mod Invariant
pub mod Unsubscribe
pub mod Dispatch
pub mod Emit
pub mod Changes
pub mod Queue
pub mod History
mod Tests
use tge_core.Prelude.{
  ℕ, suc, ◌+◌, ◌*◌, ◌%◌, ◌==◌, ltb, leb, Bool, true, false, not, List, [], ◌∷◌, ◌++◌, Option, none,
  some, if◌then◌else◌, length, get_or, set, grow, keep_if,
}
use tge_core.Prelude.Words.{add64, mul64}

pub record Slot : Type 0 where
  pub handlers : List ℕ
  pub snapshot : Option (List ℕ)
  pub num_dead : ℕ
  pub dirty : Bool

abbrev pub empty_slot : Slot
empty_slot = record { handlers = []; snapshot = none; num_dead = 0; dirty = false }

pub record Subscription : Type 0 where
  pub handle : ℕ
  pub event_type : ℕ

-- A queued event: the type to emit, and the payload it holds.
pub record Queued : Type 0 where
  pub event_type : ℕ
  pub payload : ℕ

pub record System : Type 0 where
  pub events : List Slot
  pub alive : ℕ → Bool
  pub subscriptions : List Subscription
  pub next_handle : ℕ
  pub queue : List Queued

pub initial : System
initial = record {
  events = [];
  alive = λ _. false;
  subscriptions = [];
  next_handle = 1;
  queue = [];
}

abbrev pub slot_of : System → ℕ → Slot
slot_of s event_type = get_or s.events event_type empty_slot

abbrev pub set_flag : (ℕ → Bool) → ℕ → Bool → ℕ → Bool
set_flag alive handle flag other = if other == handle then flag else alive other

-- `if (type >= m_events.size()) m_events.resize(type + 1)`
pub make_room : List Slot → ℕ → List Slot
make_room events event_type =
    if leb (length events) event_type then grow (event_type + 1) empty_slot events else events

-- `SubscribeErased`: the new state, and the handle.
pub subscribe_erased : System → ℕ → System × ℕ
unfolding make_room
subscribe_erased s event_type =
    let handle = s.next_handle in
    let events = make_room s.events event_type in
    let slot = get_or events event_type empty_slot in
    (
      record {
        events =
            set events event_type
              (record slot { handlers = slot.handlers ++ handle ∷ []; dirty = true });
        alive = set_flag s.alive handle true;
        subscriptions = s.subscriptions ++ record { handle = handle; event_type = event_type } ∷ [];
        next_handle = add64 s.next_handle 1;
        queue = s.queue;
      },
      handle,
    )

-- `m_subscriptions.find(handle)`
pub find_type : ℕ → List Subscription → Option ℕ
find_type handle [] = none
find_type handle (x ∷ xs) = if x.handle == handle then some x.event_type else find_type handle xs

-- The slot of an entry that has just died.
pub bury : (ℕ → Bool) → Slot → Slot
bury alive slot =
    let num_dead = slot.num_dead + 1 in
    if ltb (length slot.handlers) (num_dead * 2)
    then record slot { handlers = keep_if alive slot.handlers; num_dead = 0; dirty = true }
    else record slot { num_dead = num_dead; dirty = true }

pub unsubscribe : System → ℕ → System
unfolding find_type bury
unsubscribe s handle = elim (find_type handle s.subscriptions) [
  | none ↦ s
  | some event_type ↦
      let alive = set_flag s.alive handle false in
      record s {
        events = set s.events event_type (bury alive (slot_of s event_type));
        alive = alive;
        subscriptions = keep_if (λ x. not (x.handle == handle)) s.subscriptions;
      }
]

-- The slot after `GetSnapshot`.
pub refresh : (ℕ → Bool) → Slot → Slot
refresh alive slot =
    if slot.dirty
    then (let handlers = keep_if alive slot.handlers in
        record { handlers = handlers; num_dead = 0; snapshot = some handlers; dirty = false })
    else slot

pub get_snapshot : System → ℕ → System × Option (List ℕ)
unfolding refresh
get_snapshot s event_type =
    if ltb event_type (length s.events)
    then (
      record s { events = set s.events event_type (refresh s.alive (slot_of s event_type)) },
      (refresh s.alive (slot_of s event_type)).snapshot,
    )
    else (s, none)

-- What the code of the handlers does to the system when it is called with a payload.
abbrev pub Handlers : Type 0
Handlers = ℕ → ℕ → System → System

-- The calls that the loop over a snapshot makes, in order, and the state after them.
pub call_all : Handlers → ℕ → List ℕ → System → System × List ℕ
call_all code payload [] s = (s, [])
call_all code payload (h ∷ hs) s = elim (s.alive h) [
  | false ↦ call_all code payload hs s
  | true ↦ let rest = call_all code payload hs (code h payload s) in (rest.0, h ∷ rest.1)
]

pub emit_erased : Handlers → System → ℕ → ℕ → System × List ℕ
unfolding get_snapshot call_all
emit_erased code s event_type payload = elim (get_snapshot s event_type).1 [
  | none ↦ ((get_snapshot s event_type).0, [])
  | some snapshot ↦ call_all code payload snapshot (get_snapshot s event_type).0
]

pub queue_erased : System → Queued → System
queue_erased s dispatch = record s { queue = s.queue ++ dispatch ∷ [] }

-- The loop over `m_draining`: each entry emits its event.
pub drain : Handlers → List Queued → System → System × List ℕ
unfolding emit_erased
drain code [] s = (s, [])
drain code (q ∷ qs) s =
    let first = emit_erased code s q.event_type q.payload in
    let rest = drain code qs first.0 in (rest.0, first.1 ++ rest.1)

pub dispatch_queued : Handlers → System → System × List ℕ
unfolding drain
dispatch_queued code s = drain code s.queue (record s { queue = [] })
