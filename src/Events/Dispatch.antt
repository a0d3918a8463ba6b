-- ===== src/Events/Dispatch.antt =====
-- What an emission calls.
use tge_core.Prelude.{
  ℕ, ◌<◌, ◌≡◌, refl, ◌∙◌, ap, sym, subst, inl, inr, ◌==◌, ltb, Bool, true, List, [], ◌∷◌, Option,
  none, some, arith, length, keep_if, All, All-keep_if, All-map, keep_if-All, Bool-cases,
  Option-cases, get_or, get_or-set, set, length-set, ltb→lt, ==_iff, get_or_past,
}
use tge_core.Events.{
  Slot, System, Handlers, empty_slot, slot_of, refresh, get_snapshot, call_all, emit_erased,
}
use tge_core.Events.Invariant.{Inv, SlotInv, subscribers, dead, SlotInv-cast}
use tge_core.Events.Unsubscribe.{dead-keep_if}

All-alive : (alive : ℕ → Bool) (hs : List ℕ) → All (λ h. alive h ≡ true) (keep_if alive hs)
All-alive alive [] = tt
All-alive alive (h ∷ hs) = elim (Bool-cases (alive h)) [
  | inl e ↦ rw e (e, All-alive alive hs)
  | inr e ↦ rw e (All-alive alive hs)
]

no_dead : (alive : ℕ → Bool) (hs : List ℕ) → dead alive hs ≡ 0 → keep_if alive hs ≡ hs
no_dead alive [] e = refl
no_dead alive (h ∷ hs) e = ground (arith, no_dead alive hs)

pub subscribers_alive : (s : System) (t : ℕ) → Inv s → All (λ h. s.alive h ≡ true) (subscribers s t)
subscribers_alive s t v =
    subst (All (λ h. s.alive h ≡ true)) (v.slots t).living
      (All-alive s.alive (slot_of s t).handlers)

refresh-SlotInv :
    (alive : ℕ → Bool) (next : ℕ) (live : List ℕ) (slot : Slot)
    → SlotInv alive next live slot
    → SlotInv alive next live (refresh alive slot)
unfolding refresh
refresh-SlotInv alive next live slot v = elim (Bool-cases slot.dirty) [
  | inl e ↦
      rw (e, refresh)
        (record {
          living =
              ap (keep_if alive) v.living
              ∙ keep_if-All alive live
                  (subst (All (λ h. alive h ≡ true)) v.living (All-alive alive slot.handlers));
          counted = sym (dead-keep_if alive slot.handlers);
          lean = omega arith;
          fresh = All-keep_if (λ h. h < next) alive slot.handlers v.fresh;
          cached = λ _. (refl, inl refl);
        })
  | inr e ↦ simp (e, refresh) v
]

-- The list that a snapshot holds; no snapshot is an empty one.
abbrev pub listed : Option (List ℕ) → List ℕ
listed none = []
listed (some hs) = hs

refresh-listed :
    (alive : ℕ → Bool) (next : ℕ) (live : List ℕ) (slot : Slot)
    → SlotInv alive next live slot
    → listed (refresh alive slot).snapshot ≡ live
unfolding refresh
refresh-listed alive next live slot v = elim (Bool-cases slot.dirty) [
  | inl e ↦ rw (e, refresh) v.living
  | inr e ↦
      let (clean, kept) = v.cached e in
      let whole = no_dead alive slot.handlers (omega (arith, v.counted, clean)) in
      rw (e, refresh)
        (elim kept [
          | inl same ↦ rw same (sym whole ∙ v.living)
          | inr (absent, empty) ↦ rw absent (sym (ap (keep_if alive) empty) ∙ v.living)
        ])
]

refreshed-slots :
    (s : System) (event_type t : ℕ)
    → Inv s
    → event_type < length s.events
    → SlotInv s.alive s.next_handle
        (subscribers s t)
        (get_or (set s.events event_type (refresh s.alive (slot_of s event_type))) t empty_slot)
refreshed-slots s event_type t v within =
    SlotInv-cast refl refl
      (sym (
        get_or-set s.events event_type t (refresh s.alive (slot_of s event_type)) empty_slot
          within))
      (elim (Bool-cases (t == event_type)) [
        | inl e ↦ rw e (
            subst
              (λ k. SlotInv s.alive s.next_handle (subscribers s t) (refresh s.alive (slot_of s k)))
              ((==_iff t event_type).0 e)
              (refresh-SlotInv s.alive s.next_handle (subscribers s t) (slot_of s t) (v.slots t)))
        | inr e ↦ rw e (v.slots t)
      ])

refreshed-Inv :
    (s : System) (event_type : ℕ)
    → Inv s
    → event_type < length s.events
    → Inv (record s { events = set s.events event_type (refresh s.alive (slot_of s event_type)) })
refreshed-Inv s event_type v within = record {
  slots = λ t. refreshed-slots s event_type t v within;
  keys = v.keys;
  older = v.older;
  placed =
      All-map
        (λ x (lt : x.event_type < length s.events).
          omega (arith, length-set s.events event_type (refresh s.alive (slot_of s event_type))))
        s.subscriptions v.placed;
}

pub get_snapshot-Inv : (s : System) (t : ℕ) → Inv s → Inv (get_snapshot s t).0
unfolding get_snapshot
get_snapshot-Inv s t v = elim (Bool-cases (ltb t (length s.events))) [
  | inl within ↦ rw (within, get_snapshot) (refreshed-Inv s t v (ltb→lt _ _ within))
  | inr past ↦ rw (past, get_snapshot) v
]

-- A snapshot lists the subscribers of its type, in the order in which they subscribed.
pub get_snapshot-listed :
    (s : System) (t : ℕ) → Inv s → listed (get_snapshot s t).1 ≡ subscribers s t
unfolding get_snapshot
get_snapshot-listed s t v = elim (Bool-cases (ltb t (length s.events))) [
  | inl within ↦
      rw (within, get_snapshot)
        (refresh-listed s.alive s.next_handle (subscribers s t) (slot_of s t) (v.slots t))
  | inr past ↦
      rw (past, get_snapshot)
        (sym (
            ap (λ slot. keep_if s.alive (slot.handlers))
              (get_or_past s.events t empty_slot (ground arith)))
          ∙ (v.slots t).living)
]

pub get_snapshot_keeps :
    (s : System) (t : ℕ)
    → ((get_snapshot s t).0.alive ≡ s.alive)
      × ((get_snapshot s t).0.subscriptions ≡ s.subscriptions)
      × ((get_snapshot s t).0.queue ≡ s.queue)
unfolding get_snapshot
get_snapshot_keeps s t = ground arith

pub emit_erased-call_all :
    (code : Handlers) (s : System) (t payload : ℕ)
    → emit_erased code s t payload
      ≡ call_all code payload (listed (get_snapshot s t).1) (get_snapshot s t).0
unfolding emit_erased call_all
emit_erased-call_all code s t payload = elim (Option-cases (get_snapshot s t).1) [
  | inl e ↦ rw (e, emit_erased) refl
  | inr (hs, e) ↦ rw (e, emit_erased) refl
]

-- The code of the handlers keeps the system well formed, and neither subscribes nor unsubscribes;
-- it may queue events.
abbrev pub IsQuiet : Handlers → Type 0
IsQuiet code =
    (h payload : ℕ) (s : System)
    → Inv s
    → Inv (code h payload s)
      × ((code h payload s).alive ≡ s.alive)
      × ((code h payload s).subscriptions ≡ s.subscriptions)

pub call_all_quiet :
    (code : Handlers) (payload : ℕ) (hs : List ℕ) (s : System)
    → IsQuiet code
    → Inv s
    → All (λ h. s.alive h ≡ true) hs
    → ((call_all code payload hs s).1 ≡ hs)
      × Inv (call_all code payload hs s).0
      × ((call_all code payload hs s).0.subscriptions ≡ s.subscriptions)
unfolding call_all
call_all_quiet code payload [] s quiet v alive = (refl, v, refl)
call_all_quiet code payload (h ∷ hs) s quiet v alive =
    let (v', flags, subs) = quiet h payload s v in
    let (calls, v'', subs') =
      call_all_quiet code payload hs (code h payload s) quiet v'
        (subst (λ f. All (λ k. f k ≡ true) hs) (sym flags) alive.1) in
    rw (alive.0, call_all) (ap (λ l. h ∷ l) calls, v'', subs' ∙ subs)
