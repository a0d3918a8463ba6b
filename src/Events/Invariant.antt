-- ===== src/Events/Invariant.antt =====
-- The slots hold, for each event type, the living subscribers in the order of their subscription.
use mathlib.Core.Path.{ap₂, subst₃}
use mathlib.Core.List.{append-nil}
use tge_core.Prelude.{
  ℕ, ◌+◌, ◌*◌, ◌≤◌, ◌<◌, ◌≡◌, refl, ◌∙◌, ap, sym, subst, ◌⊎◌, inl, inr, ◌==◌, Bool, true, false,
  not, List, [], ◌∷◌, ◌++◌, none, some, arith, if◌then◌else◌, length, keep_if, count_if, All,
  Distinct, All-map, All-concat, keep_if-append, keep_if_same, count_if_same, count_if-append,
  length-append, Bool-cases, ne→==_false, ==_refl, ==_iff, Distinct-concat, length-set,
}
use tge_core.Prelude.Words.{u64_mod, add64}
use tge_core.Events.{
  Slot, System, Subscription, slot_of, set_flag, subscribe_erased, make_room, initial,
}
use tge_core.Events.Slots.{subscribed, slot_of-subscribe, length-make_room, length-make_room_ge}

-- The handles subscribed to a type, oldest first: what the system stands for.
abbrev pub handles_of : ℕ → List Subscription → List ℕ
handles_of t [] = []
handles_of t (x ∷ xs) = if x.event_type == t then x.handle ∷ handles_of t xs else handles_of t xs

abbrev pub subscribers : System → ℕ → List ℕ
subscribers s t = handles_of t s.subscriptions

abbrev pub dead : (ℕ → Bool) → List ℕ → ℕ
dead alive = count_if (λ h. not (alive h))

-- One slot, against the handles that it has to hold.
pub record SlotInv (alive : ℕ → Bool) (next_handle : ℕ) (live : List ℕ) (slot : Slot) : Type 0 where
  pub living : keep_if alive slot.handlers ≡ live
  pub counted : slot.num_dead ≡ dead alive slot.handlers
  pub lean : slot.num_dead * 2 ≤ length slot.handlers
  pub fresh : All (λ h. h < next_handle) slot.handlers
  pub cached :
      slot.dirty ≡ false
      → (slot.num_dead ≡ 0)
        × ((slot.snapshot ≡ some slot.handlers) ⊎ ((slot.snapshot ≡ none) × (slot.handlers ≡ [])))

pub record Inv (s : System) : Type 0 where
  pub slots : (t : ℕ) → SlotInv s.alive s.next_handle (subscribers s t) (slot_of s t)
  pub keys : Distinct (λ (x : Subscription). x.handle) s.subscriptions
  pub older : All (λ (x : Subscription). x.handle < s.next_handle) s.subscriptions
  pub placed : All (λ (x : Subscription). x.event_type < length s.events) s.subscriptions

pub initial-Inv : Inv initial
unfolding initial
initial-Inv = record {
  slots = λ t. record {
    living = refl;
    counted = refl;
    lean = omega arith;
    fresh = tt;
    cached = λ _. (refl, inr (refl, refl));
  };
  keys = tt;
  older = tt;
  placed = tt;
}

pub handles_of-append :
    (t : ℕ) (xs ys : List Subscription)
    → handles_of t (xs ++ ys) ≡ handles_of t xs ++ handles_of t ys
handles_of-append t [] ys = refl
handles_of-append t (x ∷ xs) ys = ground (arith, handles_of-append t xs ys)

pub handles_of-without :
    (t handle : ℕ) (xs : List Subscription)
    → handles_of t (keep_if (λ x. not (x.handle == handle)) xs)
      ≡ keep_if (λ h. not (h == handle)) (handles_of t xs)
handles_of-without t handle [] = refl
handles_of-without t handle (x ∷ xs) = ground (arith, handles_of-without t handle xs)

-- A new handle is above all that are in use, so their flags stay.
flag_below :
    (alive : ℕ → Bool) (next : ℕ) (flag : Bool) (hs : List ℕ)
    → All (λ h. h < next) hs
    → All (λ h. set_flag alive next flag h ≡ alive h) hs
flag_below alive next flag hs =
    All-map (λ h (lt : h < next). rw (ne→==_false h next (λ e. omega arith))) hs

subscribed-SlotInv :
    (s : System) (event_type : ℕ) (live : List ℕ)
    → SlotInv s.alive s.next_handle live (slot_of s event_type)
    → SlotInv
        (set_flag s.alive s.next_handle true)
        (s.next_handle + 1)
        (live ++ s.next_handle ∷ [])
        (subscribed s event_type)
subscribed-SlotInv s event_type live v = record {
  living =
      keep_if-append alive' hs (s.next_handle ∷ [])
      ∙ ap₂ ◌++◌ (keep_if_same alive' s.alive hs same ∙ v.living) (rw (==_refl s.next_handle) refl);
  counted =
      v.counted
      ∙ sym (
          count_if-append (λ h. not (alive' h)) hs (s.next_handle ∷ [])
          ∙ rw (==_refl s.next_handle) (omega (arith, dead_same)));
  lean = omega (arith, v.lean, length-append hs (s.next_handle ∷ []));
  fresh =
      All-concat (λ h. h < s.next_handle + 1) hs s.next_handle
        (All-map (λ h lt. omega arith) hs v.fresh) (omega arith);
  cached = λ e. cc;
}
  where
    hs : List ℕ
    hs = (slot_of s event_type).handlers

    alive' : ℕ → Bool
    alive' = set_flag s.alive s.next_handle true

    same : All (λ h. alive' h ≡ s.alive h) hs
    same = flag_below s.alive s.next_handle true hs v.fresh

    dead_same : dead alive' hs ≡ dead s.alive hs
    dead_same = count_if_same _ _ hs (All-map (λ h e. ap not e) hs same)

untouched-SlotInv :
    (alive : ℕ → Bool) (next : ℕ) (live : List ℕ) (slot : Slot)
    → SlotInv alive next live slot
    → SlotInv (set_flag alive next true) (next + 1) live slot
untouched-SlotInv alive next live slot v = record {
  living = keep_if_same _ _ slot.handlers same ∙ v.living;
  counted =
      v.counted
      ∙ sym (count_if_same _ _ slot.handlers (All-map (λ h e. ap not e) slot.handlers same));
  lean = v.lean;
  fresh = All-map (λ h lt. omega arith) slot.handlers v.fresh;
  cached = v.cached;
}
  where
    same : All (λ h. set_flag alive next true h ≡ alive h) slot.handlers
    same = flag_below alive next true slot.handlers v.fresh

pub SlotInv-cast :
    {alive : ℕ → Bool} {n n' : ℕ} {live live' : List ℕ} {slot slot' : Slot}
    → n ≡ n'
    → live ≡ live'
    → slot ≡ slot'
    → SlotInv alive n live slot
    → SlotInv alive n' live' slot'
SlotInv-cast {alive} p q r v = subst₃ (SlotInv alive) p q r v

subscribe_erased-slots :
    (s : System) (event_type t : ℕ)
    → s.next_handle + 1 < u64_mod
    → Inv s
    → SlotInv
        (set_flag s.alive s.next_handle true)
        (add64 s.next_handle 1)
        (handles_of t
          (s.subscriptions ++ record { handle = s.next_handle; event_type = event_type } ∷ []))
        (if t == event_type then subscribed s event_type else slot_of s t)
subscribe_erased-slots s event_type t word v = elim (Bool-cases (t == event_type)) [
  | inl e ↦ rw e (
      SlotInv-cast (omega arith) (sym (grown ∙ ground arith)) refl (
        subscribed-SlotInv s event_type (subscribers s t) (
          subst (λ k. SlotInv s.alive s.next_handle (subscribers s t) (slot_of s k))
            ((==_iff t event_type).0 e) (v.slots t))))
  | inr e ↦ rw e (
      SlotInv-cast (omega arith) (sym (grown ∙ ground (arith, append-nil (subscribers s t)))) refl
        (untouched-SlotInv s.alive s.next_handle (subscribers s t) (slot_of s t) (v.slots t)))
]
  where
    new : List Subscription
    new = record { handle = s.next_handle; event_type = event_type } ∷ []

    grown : handles_of t (s.subscriptions ++ new) ≡ subscribers s t ++ handles_of t new
    grown = handles_of-append t s.subscriptions new

length-subscribe :
    (s : System) (event_type : ℕ)
    → length (subscribe_erased s event_type).0.events ≡ length (make_room s.events event_type)
unfolding subscribe_erased
length-subscribe s event_type = length-set (make_room s.events event_type) event_type _

pub subscribe_erased-Inv :
    (s : System) (event_type : ℕ)
    → s.next_handle + 1 < u64_mod
    → Inv s
    → Inv (subscribe_erased s event_type).0
unfolding subscribe_erased
subscribe_erased-Inv s event_type word v = record {
  slots = λ t.
      SlotInv-cast refl refl (sym (slot_of-subscribe s event_type t))
        (subscribe_erased-slots s event_type t word v);
  keys =
      Distinct-concat _ s.subscriptions _
        (All-map (λ x (lt : x.handle < s.next_handle). λ e. omega arith) s.subscriptions v.older)
        v.keys;
  older =
      All-concat _ s.subscriptions _
        (All-map (λ x (lt : x.handle < s.next_handle). omega arith) s.subscriptions v.older)
        (omega arith);
  placed =
      All-concat _ s.subscriptions _
        (All-map
          (λ x (lt : x.event_type < length s.events).
            omega (arith, size, length-make_room_ge s.events event_type))
          s.subscriptions v.placed)
        (omega (arith, size, length-make_room s.events event_type));
}
  where
    size : length (subscribe_erased s event_type).0.events ≡ length (make_room s.events event_type)
    size = length-subscribe s event_type
