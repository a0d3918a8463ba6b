-- ===== src/Threading/SerialJobQueue.antt =====
-- public/tge/threading/serial_job_queue.hpp: one worker thread that runs jobs in order. Each
-- function here is one region under the mutex. A job's id and its work are numbers, and what the
-- work returns is a parameter.
pub mod Order
pub mod Delivery
pub mod Cancellation
mod Tests
use tge_core.Prelude.{
  ℕ, zero, suc, ◌==◌, Bool, true, false, not, ◌&&◌, List, [], ◌∷◌, ◌++◌, Option, none, some,
  if◌then◌else◌, any, keep_if, length,
}

pub record Entry : Type 0 where
  pub job_id : ℕ
  pub work : ℕ

-- `in_flight` is the entry that the worker runs outside of the mutex.
pub record Queue : Type 0 where
  pub is_running : Bool
  pub should_stop : Bool
  pub pending : List Entry
  pub completed : List ℕ
  pub cancelled : List ℕ
  pub in_flight : Option Entry

pub new_queue : Queue
new_queue = record {
  is_running = false;
  should_stop = false;
  pending = [];
  completed = [];
  cancelled = [];
  in_flight = none;
}

pub start : Queue → Queue
start q = if not q.is_running then record q { should_stop = false; is_running = true } else q

-- `Stop` up to the join, and after it: by then the worker has left its loop.
pub request_stop : Queue → Queue
request_stop q = if q.is_running then record q { should_stop = true } else q

pub end_stop : Queue → Queue
end_stop q = if q.is_running then record q { is_running = false } else q

-- The middle of `Flush`.
pub clear : Queue → Queue
clear q = record q { pending = []; cancelled = []; completed = [] }

pub submit : Queue → Entry → Queue
submit q e = record q { pending = q.pending ++ e ∷ [] }

pub poll : Queue → Queue × Option ℕ
poll q = elim q.completed [
  | [] ↦ (q, none)
  | result ∷ rest ↦ (record q { completed = rest }, some result)
]

-- `m_cancelled.count(jobId) > 0`, `insert` and `erase` of the set.
abbrev pub is_cancelled : List ℕ → ℕ → Bool
is_cancelled ids job_id = any (λ x. x == job_id) ids

pub insert_id : List ℕ → ℕ → List ℕ
insert_id ids job_id = if is_cancelled ids job_id then ids else ids ++ job_id ∷ []

pub erase_id : List ℕ → ℕ → List ℕ
erase_id ids job_id = keep_if (λ x. not (x == job_id)) ids

-- Whether some pending entry has this id.
abbrev pub has_pending : List Entry → ℕ → Bool
has_pending es job_id = any (λ (e : Entry). e.job_id == job_id) es

pub cancel : Queue → ℕ → Queue
unfolding insert_id
cancel q job_id = record q {
  pending = keep_if (λ (e : Entry). not (e.job_id == job_id)) q.pending;
  cancelled =
      if not (has_pending q.pending job_id) then insert_id q.cancelled job_id else q.cancelled;
}

-- The worker's region: it takes the first entry, and drops it if it is cancelled. The wait has
-- found an entry or the request to stop; `none` is the end of the loop.
pub take_entry : Queue → Option Queue
unfolding erase_id
take_entry q = elim q.pending [
  | [] ↦ if q.should_stop then none else some q
  | e ∷ rest ↦
      if q.should_stop
      then none
      else if is_cancelled q.cancelled e.job_id
      then some (record q { pending = rest; cancelled = erase_id q.cancelled e.job_id })
      else some (record q { pending = rest; in_flight = some e })
]

-- What follows when the work in flight has returned.
pub finish_entry : (ℕ → ℕ) → Queue → Queue
finish_entry run q = elim q.in_flight [
  | none ↦ q
  | some e ↦ record q { completed = q.completed ++ run e.work ∷ []; in_flight = none }
]

-- `WorkerThreadMain` for so many rounds, as no caller steps in.
pub worker_loop : ℕ → (ℕ → ℕ) → Queue → Queue
worker_loop zero run q = q
worker_loop (suc n) run q = elim (take_entry q) [
  | none ↦ q
  | some r ↦ worker_loop n run (finish_entry run r)
]

pub has_pending_work : Queue → Bool
has_pending_work q = elim q.pending [ [] ↦ false | e ∷ es ↦ true ]

pub get_pending_count : Queue → ℕ
get_pending_count q = length q.pending
