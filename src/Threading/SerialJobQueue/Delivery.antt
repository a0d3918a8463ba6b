-- ===== src/Threading/SerialJobQueue/Delivery.antt =====
-- The worker's loop left to itself.
use tge_core.Prelude.{ℕ, ◌≡◌, refl, sym, ap, ◌∙◌, false, List, [], ◌∷◌, ◌++◌, none, length}
use tge_core.Threading.SerialJobQueue.{
  Queue, Entry, worker_loop, take_entry, finish_entry, has_pending_work,
}
use tge_core.Threading.SerialJobQueue.Order.{results, append_assoc}

append_nil : (xs : List ℕ) → xs ++ [] ≡ xs
append_nil [] = refl
append_nil (x ∷ xs) = ap (λ l. x ∷ l) (append_nil xs)

drain :
    (run : ℕ → ℕ) (es : List Entry) (q : Queue)
    → q.pending ≡ es
    → q.should_stop ≡ false
    → q.in_flight ≡ none
    → q.cancelled ≡ []
    → ((worker_loop (length es) run q).completed ≡ q.completed ++ results run es)
      × ((worker_loop (length es) run q).pending ≡ [])
unfolding worker_loop take_entry finish_entry
drain run [] q e go idle h = (sym (append_nil q.completed), e)
drain run (x ∷ es) q e go idle h =
    let next : Queue = record q {
      should_stop = false;
      pending = es;
      cancelled = [];
      in_flight = none;
      completed = q.completed ++ run x.work ∷ [];
    } in
    let rest = drain run es next refl refl refl refl in
    rw (e, go, h) (rest.0 ∙ append_assoc run q.completed (run x.work ∷ []) (results run es), rest.1)

-- With no cancellation, no request to stop and none in flight, as many rounds as there are pending
-- jobs leave none pending, and have appended the result of each of them to those already completed,
-- in order; the queue then says that it has no pending work.
pub worker_loop_lem :
    (run : ℕ → ℕ) (q : Queue)
    → q.should_stop ≡ false
    → q.in_flight ≡ none
    → q.cancelled ≡ []
    → ((worker_loop (length q.pending) run q).completed ≡ q.completed ++ results run q.pending)
      × (has_pending_work (worker_loop (length q.pending) run q) ≡ false)
unfolding has_pending_work
worker_loop_lem run q go idle h =
    let (all, none_left) = drain run q.pending q refl go idle h in (all, rw none_left refl)
