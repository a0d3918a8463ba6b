-- ===== src/Events/Slots.antt =====
-- The slots after a subscription, an unsubscription and a snapshot, one event type at a time.
use mathlib.Core.Path.{ap₂}
use tge_core.Prelude.{
  ◌&&◌, ltb→lt, ℕ, ◌+◌, ◌≤◌, ◌<◌, ◌≡◌, refl, ◌∙◌, ap, ◌==◌, ltb, leb, true, false, List, [], ◌∷◌,
  ◌++◌, some, arith, if◌then◌else◌, length, get_or, get_or-grow, length-grow, length-grow_ge,
  get_or-set, Bool-cases, inl, inr,
}
use tge_core.Events.{
  Slot, System, empty_slot, slot_of, set_flag, subscribe_erased, unsubscribe, find_type, make_room,
  bury, refresh, get_snapshot,
}

pub length-make_room : (events : List Slot) (n : ℕ) → n < length (make_room events n)
unfolding make_room
length-make_room events n = elim (Bool-cases (leb (length events) n)) [
  | inl past ↦ rw past (omega (arith, length-grow (n + 1) empty_slot events))
  | inr within ↦ rw within (ground arith)
]

pub length-make_room_ge : (events : List Slot) (n : ℕ) → length events ≤ length (make_room events n)
unfolding make_room
length-make_room_ge events n = elim (Bool-cases (leb (length events) n)) [
  | inl past ↦ rw past (length-grow_ge (n + 1) empty_slot events)
  | inr within ↦ rw within (omega arith)
]

get_or-make_room :
    (events : List Slot) (n i : ℕ)
    → get_or (make_room events n) i empty_slot ≡ get_or events i empty_slot
unfolding make_room
get_or-make_room events n i = elim (Bool-cases (leb (length events) n)) [
  | inl past ↦ rw past (get_or-grow (n + 1) empty_slot events i)
  | inr within ↦ rw within refl
]

abbrev pub subscribed : System → ℕ → Slot
subscribed s event_type = record slot {
  handlers = slot.handlers ++ s.next_handle ∷ [];
  dirty = true;
}
  where
    slot : Slot
    slot = slot_of s event_type

pub slot_of-subscribe :
    (s : System) (event_type t : ℕ)
    → slot_of (subscribe_erased s event_type).0 t
      ≡ (if t == event_type then subscribed s event_type else slot_of s t)
unfolding subscribe_erased
slot_of-subscribe s event_type t =
    get_or-set events event_type t new empty_slot (length-make_room s.events event_type)
    ∙ ap₂ (λ v w. if t == event_type then v else w)
        (ap
          (λ (slot : Slot). record slot {
            handlers = slot.handlers ++ s.next_handle ∷ [];
            dirty = true;
          })
          (get_or-make_room s.events event_type event_type))
        (get_or-make_room s.events event_type t)
  where
    events : List Slot
    events = make_room s.events event_type

    new : Slot
    new = record (get_or events event_type empty_slot) {
      handlers = (get_or events event_type empty_slot).handlers ++ s.next_handle ∷ [];
      dirty = true;
    }

pub slot_of-unsubscribe :
    (s : System) (handle event_type t : ℕ)
    → find_type handle s.subscriptions ≡ some event_type
    → event_type < length s.events
    → slot_of (unsubscribe s handle) t ≡ (
        if t == event_type
        then bury (set_flag s.alive handle false) (slot_of s event_type)
        else slot_of s t)
unfolding unsubscribe
slot_of-unsubscribe s handle event_type t found within =
    rw (found, unsubscribe)
      (get_or-set s.events event_type t
        (bury (set_flag s.alive handle false) (slot_of s event_type)) empty_slot within)

pub slot_of-get_snapshot :
    (s : System) (event_type t : ℕ)
    → slot_of (get_snapshot s event_type).0 t ≡ (
        if t == event_type && ltb event_type (length s.events)
        then refresh s.alive (slot_of s event_type)
        else slot_of s t)
unfolding get_snapshot
slot_of-get_snapshot s event_type t = elim (Bool-cases (ltb event_type (length s.events))) [
  | inl within ↦
      rw (within, get_snapshot)
        (get_or-set s.events event_type t (refresh s.alive (slot_of s event_type)) empty_slot
            (ltb→lt _ _ within)
          ∙ ap (λ b. if b then refresh s.alive (slot_of s event_type) else slot_of s t) and_true)
  | inr past ↦
      rw (past, get_snapshot)
        (ap (λ b. if b then refresh s.alive (slot_of s event_type) else slot_of s t) and_false)
]
  where
    and_true : (t == event_type) ≡ (t == event_type && true)
    and_true = ground arith

    and_false : false ≡ (t == event_type && false)
    and_false = ground arith
