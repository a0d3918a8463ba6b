-- ===== src/Threading/SerialJobQueue/Tests.antt =====
-- The queue on concrete jobs, whose work returns ten times its number.
use tge_core.Prelude.{ℕ, ◌*◌, ◌≡◌, refl, true, false, [], ◌∷◌, ◌++◌, none, some, Sublistᴰ}
use tge_core.Threading.SerialJobQueue.{
  Queue, Entry, new_queue, start, submit, cancel, take_entry, finish_entry, poll, worker_loop,
  has_pending_work,
}
use tge_core.Threading.SerialJobQueue.Order.{
  Runs, made, starts, submits, takes, finishes, cancels, polls, in_store, results, in_order,
}
use tge_core.Threading.SerialJobQueue.Cancellation.{cancel_in_flight}
use tge_core.Threading.SerialJobQueue.Delivery.{worker_loop_lem}

abbrev run : ℕ → ℕ
run n = n * 10

abbrev job : ℕ → ℕ → Entry
job job_id work = record { job_id = job_id; work = work }

abbrev three : Queue
three = record new_queue {
  is_running = true;
  pending = job 1 1 ∷ job 2 2 ∷ job 3 3 ∷ [];
  completed = 5 ∷ [];
}

abbrev running : Queue
running = record new_queue { is_running = true }

abbrev taken : Queue
taken = record running { pending = job 2 2 ∷ []; in_flight = some (job 1 1) }

-- Two jobs are submitted, the first is taken, the second cancelled, the first finished and polled.
history : Runs run running (job 1 1 ∷ job 2 2 ∷ []) (10 ∷ [])
unfolding new_queue start submit take_entry cancel finish_entry poll
history = polls (
    finishes (
      cancels 2
        (takes {r = taken} (submits (job 2 2) (submits (job 1 1) (starts made))) refl refl)))

in_order_example :
    Sublistᴰ ((10 ∷ []) ++ in_store run running) (results run (job 1 1 ∷ job 2 2 ∷ []))
in_order_example = in_order run history

worker_loop_lem_example :
    ((worker_loop 3 run three).completed ≡ 5 ∷ 10 ∷ 20 ∷ 30 ∷ [])
    × (has_pending_work (worker_loop 3 run three) ≡ false)
unfolding new_queue
worker_loop_lem_example = worker_loop_lem run three refl refl refl

abbrev flying : Queue
flying = record new_queue { is_running = true; in_flight = some (job 1 1) }

cancel_in_flight_example :
    ((finish_entry run (cancel flying 1)).completed ≡ 10 ∷ [])
    × ((r : Queue) × (take_entry (submit (finish_entry run (cancel flying 1)) (job 1 2)) ≡ some r)
        × (r.in_flight ≡ none)
        × (r.pending ≡ [])
        × (r.completed ≡ 10 ∷ []))
unfolding new_queue
cancel_in_flight_example = cancel_in_flight run flying (job 1 1) (job 1 2) refl refl refl refl
