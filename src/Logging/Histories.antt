-- ===== src/Logging/Histories.antt =====
-- What a listener receives of a channel's messages, and what its history keeps.
use Prim.Native.Nat.{bit_and}
use tge_core.Prelude.{
  ℕ, ◌≤◌, ◌==◌, ltb, ltb→lt, ◌≡◌, ◌⊎◌, inl, inr, refl, sym, ap, subst, ◌∙◌, true, ◌&&◌, List, [],
  ◌∷◌, ◌++◌, map, if◌then◌else◌, length, length-append, count_if, replicate, Bool-cases, arith,
}
use tge_core.Logging.{
  LogSystem, Log, Message, Listener, Delivery, shares, listeners_target, max_messages, write,
  drop_oldest, deliver_to, deliver_all, dispatch_pending, set_level_mask,
}

-- What happens to a channel.
pub data Action : Type 0 where
  writes : ℕ → ℕ → ℕ → ℕ → Action
  masks : ℕ → Action
  dispatches : Action

-- The channel after these actions, and the calls of listeners that they made.
pub run : LogSystem → Log → List Action → Log × List Delivery
unfolding write set_level_mask dispatch_pending
run s l [] = (l, [])
run s l (writes level target message now ∷ later) =
    run s (write s l level target message now).0 later
run s l (masks level ∷ later) = run s (set_level_mask l level) later
run s l (dispatches ∷ later) =
    let (l', deliveries) = dispatch_pending s l in
    let (last, rest) = run s l' later in (last, deliveries ++ rest)

-- The messages that the masks of the time let through to listeners.
pub accepted : LogSystem → ℕ → List Action → List Message
accepted s mask [] = []
accepted s mask (writes level target message now ∷ later) =
    let effective = bit_and target s.enabled_targets in
    if shares level mask && shares effective listeners_target
    then record { timestamp = now; level = level; target = effective; message = message }
      ∷ accepted s mask later
    else accepted s mask later
accepted s mask (masks level ∷ later) = accepted s level later
accepted s mask (dispatches ∷ later) = accepted s mask later

-- The messages of the calls of one listener.
pub received : ℕ → List Delivery → List Message
received key [] = []
received key (d ∷ ds) = if d.key == key then d.message ∷ received key ds else received key ds

-- `kept` is the end of `all`: everything, or the last `max_messages`.
pub IsTail : List Message → List Message → Type 0
IsTail all kept =
    (dropped : List Message) × (all ≡ dropped ++ kept)
    × (length kept ≤ max_messages)
    × ((dropped ≡ []) ⊎ (length kept ≡ max_messages))

module _ {ℓ} {A : Type ℓ} where
  ++_assoc : (xs ys zs : List A) → (xs ++ ys) ++ zs ≡ xs ++ (ys ++ zs)
  ++_assoc [] ys zs = refl
  ++_assoc (x ∷ xs) ys zs = ap (λ l. x ∷ l) (++_assoc xs ys zs)

  ++_nil : (xs : List A) → xs ++ [] ≡ xs
  ++_nil [] = refl
  ++_nil (x ∷ xs) = ap (λ l. x ∷ l) (++_nil xs)

full_of :
    (ms dropped : List Message)
    → ms ≡ dropped ++ drop_oldest ms
    → length (drop_oldest ms) ≤ max_messages
    → (dropped ≡ []) ⊎ (length (drop_oldest ms) ≡ max_messages)
    → max_messages ≤ length ms
    → length (drop_oldest ms) ≡ max_messages
full_of ms dropped all most (inr full) many = full
full_of ms dropped all most (inl none_dropped) many =
    let same = ap length (all ∙ ap (λ l. l ++ drop_oldest ms) none_dropped) in omega arith

drop_oldest-IsTail : (ms : List Message) → IsTail ms (drop_oldest ms)
unfolding IsTail drop_oldest
drop_oldest-IsTail [] = ([], refl, omega arith, inl refl)
drop_oldest-IsTail (m ∷ ms) = elim (Bool-cases (ltb max_messages (length (m ∷ ms)))) [
  | inr few ↦ rw few ([], refl, ground arith, inl refl)
  | inl many ↦
      let (dropped, all, most, full) = drop_oldest-IsTail ms in
      rw many (
        m ∷ dropped,
        ap (λ l. m ∷ l) all,
        most,
        inr (
            full_of ms dropped all most full
              (omega (arith, ltb→lt max_messages (length (m ∷ ms)) many))),
      )
]

IsTail-append :
    (all kept more : List Message)
    → IsTail all kept
    → IsTail (all ++ more) (drop_oldest (kept ++ more))
unfolding IsTail
IsTail-append all kept more (dropped, e, most, full) =
    let (next, e', most', full') = drop_oldest-IsTail (kept ++ more) in
    (
      dropped ++ next,
      ap (λ l. l ++ more) e
          ∙ ++_assoc dropped kept more
          ∙ ap (λ l. dropped ++ l) e'
          ∙ sym (++_assoc dropped next (drop_oldest (kept ++ more))),
      most',
      elim full [
        | inl none_dropped ↦ elim full' [
          | inl none_next ↦ inl (ap (λ l. l ++ next) none_dropped ∙ none_next)
          | inr k ↦ inr k
        ]
        | inr k ↦
            let sum = length-append kept more in
            inr (full_of (kept ++ more) next e' most' full' (omega arith))
      ],
    )

module _ (key : ℕ) where
  received-append :
      (ds es : List Delivery) → received key (ds ++ es) ≡ received key ds ++ received key es
  unfolding received
  received-append [] es = refl
  received-append (d ∷ ds) es = ground (arith, received-append ds es)

  received-deliver_to :
      (m : Message) (ls : List Listener)
      → received key (map (deliver_to m) ls)
        ≡ replicate (count_if (λ (x : Listener). x.key == key) ls) m
  unfolding received
  received-deliver_to m [] = refl
  received-deliver_to m (x ∷ xs) = ground (arith, received-deliver_to m xs)

  received-deliver_all :
      (ls : List Listener) (ms : List Message)
      → count_if (λ (x : Listener). x.key == key) ls ≡ 1
      → received key (deliver_all ls ms) ≡ ms
  unfolding received deliver_all
  received-deliver_all ls [] once = refl
  received-deliver_all ls (m ∷ ms) once =
      received-append (map (deliver_to m) ls) (deliver_all ls ms)
      ∙ ap (λ l. l ++ received key (deliver_all ls ms))
          (received-deliver_to m ls ∙ ap (λ n. replicate n m) once)
      ∙ ap (λ l. m ∷ l) (received-deliver_all ls ms once)

abbrev message_of : LogSystem → ℕ → ℕ → ℕ → ℕ → Message
message_of s level target message now = record {
  timestamp = now;
  level = level;
  target = bit_and target s.enabled_targets;
  message = message;
}

write-pending :
    (s : LogSystem) (l : Log) (level target message now : ℕ)
    → s.initialized ≡ true
    → (write s l level target message now).0 ≡ (
        if shares level l.level_mask && shares (bit_and target s.enabled_targets) listeners_target
        then record l {
          pending_dispatch = l.pending_dispatch ++ message_of s level target message now ∷ [];
        }
        else l)
unfolding write
write-pending s l level target message now ready = elim (Bool-cases (shares level l.level_mask)) [
  | inl passes ↦ rw (ready, passes) refl
  | inr stopped ↦ rw (ready, stopped) refl
]

module _ (s : LogSystem) (key : ℕ) (ready : s.initialized ≡ true) where
  -- What the actions have come to since a state with nothing pending.
  Kept : Log → List Message → Log → List Delivery → List Message → Type 0
  Kept first delivered last deliveries news =
      (received key deliveries ++ last.pending_dispatch ≡ first.pending_dispatch ++ news)
      × IsTail (delivered ++ received key deliveries) last.history

  keeps :
      (l : Log) (delivered : List Message) (later : List Action)
      → count_if (λ (x : Listener). x.key == key) (l.listeners ++ s.listeners) ≡ 1
      → IsTail delivered l.history
      → Kept l delivered (run s l later).0 (run s l later).1 (accepted s l.level_mask later)
  unfolding Kept run received accepted dispatch_pending set_level_mask
  keeps l delivered [] once tail = (
    sym (++_nil l.pending_dispatch),
    subst (λ ms. IsTail ms l.history) (sym (++_nil delivered)) tail,
  )
  keeps l delivered (masks level ∷ later) once tail =
      keeps (set_level_mask l level) delivered later once tail
  keeps l delivered (writes level target message now ∷ later) once tail =
      elim (Bool-cases
        (shares level l.level_mask && shares (bit_and target s.enabled_targets) listeners_target)) [
          | inl passes ↦
              let msg = message_of s level target message now in
              let rest =
                keeps (record l { pending_dispatch = l.pending_dispatch ++ msg ∷ [] }) delivered
                  later once tail in
              rw (Kept, run, accepted, write-pending s l level target message now ready, passes)
                (
                  rest.0 ∙ ++_assoc l.pending_dispatch (msg ∷ []) (accepted s l.level_mask later),
                  rest.1,
                )
          | inr stopped ↦
              rw (Kept, run, accepted, write-pending s l level target message now ready, stopped)
                (keeps l delivered later once tail)
        ]
  keeps l delivered (dispatches ∷ later) once tail =
      let next = (dispatch_pending s l).0 in
      let (news, kept) =
        keeps next (delivered ++ l.pending_dispatch) later once
          (IsTail-append delivered l.history l.pending_dispatch tail) in
      let calls = (run s next later).1 in
      rw
        (
          received-append key (deliver_all (l.listeners ++ s.listeners) l.pending_dispatch) calls,
          received-deliver_all key (l.listeners ++ s.listeners) l.pending_dispatch once,
        )
        (
          ++_assoc l.pending_dispatch (received key calls) (run s next later).0.pending_dispatch
              ∙ ap (λ ms. l.pending_dispatch ++ ms) news,
          subst (λ ms. IsTail ms (run s next later).0.history)
              (++_assoc delivered l.pending_dispatch (received key calls)) kept,
        )

-- Of the messages that the masks let through to listeners, a listener that is registered once
-- receives each one time and in order, but for those still pending; and the history keeps all that
-- were delivered, or the last 1024. The channel is new but for its listeners and its mask, and the
-- system is initialized.
pub run_lem :
    (s : LogSystem) (l : Log) (key : ℕ) (later : List Action)
    → s.initialized ≡ true
    → l.pending_dispatch ≡ []
    → l.history ≡ []
    → count_if (λ (x : Listener). x.key == key) (l.listeners ++ s.listeners) ≡ 1
    → (received key (run s l later).1 ++ (run s l later).0.pending_dispatch
        ≡ accepted s l.level_mask later)
      × IsTail (received key (run s l later).1) (run s l later).0.history
unfolding Kept IsTail
run_lem s l key later ready idle new once =
    let (all, kept) =
      keeps s key ready l [] later once ([], sym new, rw new (omega arith), inl refl) in
    (all ∙ ap (λ ms. ms ++ accepted s l.level_mask later) idle, kept)
