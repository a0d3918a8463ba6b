-- ===== src/Events/Unsubscribe.antt =====
-- `Unsubscribe` takes one handle out, and keeps the dead entries of a slot in the minority.
use tge_core.Prelude.{
  ℕ, ◌+◌, ◌*◌, ◌<◌, ◌≡◌, ◌≢◌, refl, ◌∙◌, ap, sym, subst, inl, inr, ◌==◌, ltb, Bool, false, not,
  List, [], ◌∷◌, none, some, arith, if◌then◌else◌, length, keep_if, count_if, All, Distinct,
  All-map, All-keep_if, keep_if-keep_if, Bool-cases, Option-cases, get_or-set, length-set,
  Distinct-keep_if, ==_iff, set,
}
use tge_core.Events.{
  Slot, System, Subscription, slot_of, set_flag, unsubscribe, find_type, bury, empty_slot,
}
use tge_core.Events.Invariant.{
  Inv, SlotInv, handles_of, subscribers, dead, handles_of-without, SlotInv-cast,
}

keep_if-set_flag :
    (alive : ℕ → Bool) (handle : ℕ) (hs : List ℕ)
    → keep_if (set_flag alive handle false) hs ≡ keep_if (λ h. not (h == handle)) (keep_if alive hs)
keep_if-set_flag alive handle [] = refl
keep_if-set_flag alive handle (h ∷ hs) = ground (arith, keep_if-set_flag alive handle hs)

dead-set_flag :
    (alive : ℕ → Bool) (handle : ℕ) (hs : List ℕ)
    → dead (set_flag alive handle false) hs
      ≡ dead alive hs + count_if (λ h. h == handle) (keep_if alive hs)
dead-set_flag alive handle [] = omega arith
dead-set_flag alive handle (h ∷ hs) = ground (arith, dead-set_flag alive handle hs)

pub dead-keep_if : (alive : ℕ → Bool) (hs : List ℕ) → dead alive (keep_if alive hs) ≡ 0
dead-keep_if alive [] = refl
dead-keep_if alive (h ∷ hs) = ground (arith, dead-keep_if alive hs)

other_keys :
    (t handle : ℕ) (x : Subscription) (xs : List Subscription)
    → All (λ y. y.handle ≢ x.handle) xs
    → x.handle ≡ handle
    → count_if (λ h. h == handle) (handles_of t xs) ≡ 0
other_keys t handle x [] k e = refl
other_keys t handle x (y ∷ ys) k e = ground (arith, other_keys t handle x ys k.1 e)

-- A handle in use stands once under its own type, and under no other.
occurrences :
    (t handle event_type : ℕ) (xs : List Subscription)
    → Distinct (λ (x : Subscription). x.handle) xs
    → find_type handle xs ≡ some event_type
    → count_if (λ h. h == handle) (handles_of t xs) ≡ (if event_type == t then 1 else 0)
unfolding find_type
occurrences t handle event_type [] k e = cc
occurrences t handle event_type (x ∷ xs) k e =
    ground (arith, occurrences t handle event_type xs k.1, other_keys t handle x xs k.0)

found_type :
    (n handle event_type : ℕ) (xs : List Subscription)
    → All (λ x. x.event_type < n) xs
    → find_type handle xs ≡ some event_type
    → event_type < n
unfolding find_type
found_type n handle event_type [] h e = cc
found_type n handle event_type (x ∷ xs) h e = ground (arith, found_type n handle event_type xs h.1)

bury-SlotInv :
    (alive : ℕ → Bool) (next handle : ℕ) (live : List ℕ) (slot : Slot)
    → SlotInv alive next live slot
    → count_if (λ h. h == handle) live ≡ 1
    → SlotInv
        (set_flag alive handle false)
        next
        (keep_if (λ h. not (h == handle)) live)
        (bury (set_flag alive handle false) slot)
unfolding bury
bury-SlotInv alive next handle live slot v once =
    elim (Bool-cases (ltb (length slot.handlers) ((slot.num_dead + 1) * 2))) [
      | inl many ↦
          rw (many, bury)
            (record {
              living = keep_if-keep_if alive' slot.handlers ∙ still;
              counted = sym (dead-keep_if alive' slot.handlers);
              lean = omega arith;
              fresh = All-keep_if (λ h. h < next) alive' slot.handlers v.fresh;
              cached = λ e. cc;
            })
      | inr few ↦
          rw (few, bury)
            (record {
              living = still;
              counted = omega (arith, v.counted, died);
              lean = ground arith;
              fresh = v.fresh;
              cached = λ e. cc;
            })
    ]
  where
    alive' : ℕ → Bool
    alive' = set_flag alive handle false

    still : keep_if alive' slot.handlers ≡ keep_if (λ h. not (h == handle)) live
    still =
        keep_if-set_flag alive handle slot.handlers ∙ ap (keep_if (λ h. not (h == handle))) v.living

    died : dead alive' slot.handlers ≡ dead alive slot.handlers + 1
    died = omega (
      arith,
      dead-set_flag alive handle slot.handlers,
      ap (count_if (λ h. h == handle)) v.living,
      once,
    )

-- A slot of another type.
spared-SlotInv :
    (alive : ℕ → Bool) (next handle : ℕ) (live : List ℕ) (slot : Slot)
    → SlotInv alive next live slot
    → count_if (λ h. h == handle) live ≡ 0
    → SlotInv (set_flag alive handle false) next (keep_if (λ h. not (h == handle)) live) slot
spared-SlotInv alive next handle live slot v none' = record {
  living =
      keep_if-set_flag alive handle slot.handlers ∙ ap (keep_if (λ h. not (h == handle))) v.living;
  counted = omega (
    arith,
    v.counted,
    dead-set_flag alive handle slot.handlers,
    ap (count_if (λ h. h == handle)) v.living,
    none',
  );
  lean = v.lean;
  fresh = v.fresh;
  cached = v.cached;
}

unsubscribe-slots :
    (s : System) (handle event_type t : ℕ)
    → Inv s
    → find_type handle s.subscriptions ≡ some event_type
    → SlotInv
        (set_flag s.alive handle false)
        s.next_handle
        (keep_if (λ h. not (h == handle)) (subscribers s t))
        (if t == event_type
          then bury (set_flag s.alive handle false) (slot_of s event_type)
          else slot_of s t)
unsubscribe-slots s handle event_type t v e = elim (Bool-cases (t == event_type)) [
  | inl same ↦
      let once = occurrences t handle event_type s.subscriptions v.keys e in
      let eq = (==_iff t event_type).0 same in
      rw same (
        subst
          (λ k.
            SlotInv alive' s.next_handle (keep_if (λ h. not (h == handle)) (subscribers s t))
              (bury alive' (slot_of s k)))
          eq
          (bury-SlotInv s.alive s.next_handle handle (subscribers s t) (slot_of s t) (v.slots t)
            (ground (arith, once))))
  | inr other ↦
      let never = occurrences t handle event_type s.subscriptions v.keys e in
      rw other (
        spared-SlotInv s.alive s.next_handle handle (subscribers s t) (slot_of s t) (v.slots t)
          (ground (arith, never)))
]
  where
    alive' : ℕ → Bool
    alive' = set_flag s.alive handle false

unsubscribed-Inv :
    (s : System) (handle event_type : ℕ)
    → Inv s
    → find_type handle s.subscriptions ≡ some event_type
    → Inv (record s {
      events =
          set s.events event_type (bury (set_flag s.alive handle false) (slot_of s event_type));
      alive = set_flag s.alive handle false;
      subscriptions = keep_if (λ x. not (x.handle == handle)) s.subscriptions;
    })
unsubscribed-Inv s handle event_type v e = record {
  slots = λ t.
      SlotInv-cast refl (sym (handles_of-without t handle s.subscriptions))
        (sym (
          get_or-set s.events event_type t _ empty_slot
            (found_type (length s.events) handle event_type s.subscriptions v.placed e)))
        (unsubscribe-slots s handle event_type t v e);
  keys = Distinct-keep_if _ _ s.subscriptions v.keys;
  older = All-keep_if _ _ s.subscriptions v.older;
  placed = All-keep_if _ _ s.subscriptions (
      All-map
        (λ x (lt : x.event_type < length s.events). omega (
          arith,
          length-set s.events event_type
              (bury (set_flag s.alive handle false) (slot_of s event_type)),
        ))
        s.subscriptions v.placed);
}

-- Unsubscribing any handle keeps the system well formed: for each event type the living entries of
-- the slot are the handles subscribed to it, in the order of their subscription; the count of dead
-- entries is right and they are at most half of all; and a snapshot that is not marked for
-- rebuilding holds exactly the slot's handlers, all of them alive.
pub unsubscribe-Inv : (s : System) (handle : ℕ) → Inv s → Inv (unsubscribe s handle)
unfolding unsubscribe
unsubscribe-Inv s handle v = elim (Option-cases (find_type handle s.subscriptions)) [
  | inl absent ↦ rw (absent, unsubscribe) v
  | inr (event_type, e) ↦ rw (e, unsubscribe) (unsubscribed-Inv s handle event_type v e)
]

not_found :
    (t handle : ℕ) (xs : List Subscription)
    → find_type handle xs ≡ none
    → keep_if (λ h. not (h == handle)) (handles_of t xs) ≡ handles_of t xs
unfolding find_type
not_found t handle [] e = refl
not_found t handle (x ∷ xs) e = ground (arith, not_found t handle xs)

-- The subscribers of every type after it are those before it without the handle.
pub subscribers-unsubscribe :
    (s : System) (handle t : ℕ)
    → subscribers (unsubscribe s handle) t ≡ keep_if (λ h. not (h == handle)) (subscribers s t)
unfolding unsubscribe find_type
subscribers-unsubscribe s handle t = elim (Option-cases (find_type handle s.subscriptions)) [
  | inl absent ↦ rw (absent, unsubscribe) (sym (not_found t handle s.subscriptions absent))
  | inr (event_type, e) ↦ rw (e, unsubscribe) (handles_of-without t handle s.subscriptions)
]
