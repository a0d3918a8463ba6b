-- ===== src/Events/History.antt =====
-- The system against its specification: a list of subscriptions.
use mathlib.Core.Path.{ap₂}
use mathlib.Core.List.{append-nil}
use tge_core.Prelude.{
  if◌then◌else◌, ℕ, ◌+◌, ◌<◌, ◌≡◌, refl, ◌∙◌, ◌==◌, not, List, [], ◌∷◌, ◌++◌, arith, keep_if,
  length,
}
use tge_core.Prelude.Words.{u64_mod, add64}
use tge_core.Events.{System, Handlers, initial, subscribe_erased, unsubscribe, emit_erased}
use tge_core.Events.Invariant.{
  Inv, subscribers, initial-Inv, subscribe_erased-Inv, handles_of-append,
}
use tge_core.Events.Unsubscribe.{unsubscribe-Inv, subscribers-unsubscribe}
use tge_core.Events.Dispatch.{IsQuiet}
use tge_core.Events.Emit.{emit_erased_quiet}

pub data Request : Type 0 where
  subscribes unsubscribes : ℕ → Request

pub after : List Request → System → System
after [] s = s
after (subscribes event_type ∷ rs) s = after rs (subscribe_erased s event_type).0
after (unsubscribes handle ∷ rs) s = after rs (unsubscribe s handle)

-- The specification: the handles subscribed to one type, oldest first, and the next handle.
unfoldable pub expected : ℕ → List Request → ℕ → List ℕ → List ℕ
expected t [] next live = live
expected t (subscribes event_type ∷ rs) next live =
    expected t rs (next + 1) (if event_type == t then live ++ next ∷ [] else live)
expected t (unsubscribes handle ∷ rs) next live =
    expected t rs next (keep_if (λ h. not (h == handle)) live)

subscribers-subscribe :
    (s : System) (event_type t : ℕ)
    → subscribers (subscribe_erased s event_type).0 t
      ≡ (if event_type == t then subscribers s t ++ s.next_handle ∷ [] else subscribers s t)
unfolding subscribe_erased
subscribers-subscribe s event_type t = ground (
  arith,
  handles_of-append t s.subscriptions
      (record { handle = s.next_handle; event_type = event_type } ∷ []),
  append-nil (subscribers s t),
)

subscribe-next :
    (s : System) (event_type : ℕ)
    → (subscribe_erased s event_type).0.next_handle ≡ add64 s.next_handle 1
unfolding subscribe_erased
subscribe-next s event_type = refl

unsubscribe-next : (s : System) (handle : ℕ) → (unsubscribe s handle).next_handle ≡ s.next_handle
unfolding unsubscribe
unsubscribe-next s handle = ground arith

after_lem :
    (rs : List Request) (s : System) (t : ℕ)
    → s.next_handle + length rs < u64_mod
    → Inv s
    → Inv (after rs s)
      × (subscribers (after rs s) t ≡ expected t rs s.next_handle (subscribers s t))
unfolding after expected
after_lem [] s t word v = (v, refl)
after_lem (subscribes event_type ∷ rs) s t word v =
    let s' = (subscribe_erased s event_type).0 in
    let next : s'.next_handle ≡ s.next_handle + 1 = omega (arith, subscribe-next s event_type) in
    let (v', e) =
      after_lem rs s' t (omega arith) (subscribe_erased-Inv s event_type (omega arith) v) in
    (v', e ∙ ap₂ (expected t rs) next (subscribers-subscribe s event_type t))
after_lem (unsubscribes handle ∷ rs) s t word v =
    let s' = unsubscribe s handle in
    let next = unsubscribe-next s handle in
    let (v', e) = after_lem rs s' t (omega arith) (unsubscribe-Inv s handle v) in
    (v', e ∙ ap₂ (expected t rs) next (subscribers-unsubscribe s handle t))

-- After any sequence of subscriptions and unsubscriptions, fewer than 2^64 - 1 of them, an emission
-- calls exactly the handles that a plain list of subscriptions holds for its type, in order: each
-- subscription at its end under the next handle, each unsubscription removing its handle. The
-- handlers neither subscribe nor unsubscribe.
pub emit_after :
    (code : Handlers) (rs : List Request) (t payload : ℕ)
    → IsQuiet code
    → 1 + length rs < u64_mod
    → (emit_erased code (after rs initial) t payload).1 ≡ expected t rs 1 []
unfolding initial
emit_after code rs t payload quiet word =
    let (v, e) = after_lem rs initial t word initial-Inv in
    (emit_erased_quiet code (after rs initial) t payload quiet v).0 ∙ e
