-- ===== src/Threading/JobGroup.antt =====
-- private/threading/job_group.cpp: the state that a job group shares with the runners of its jobs.
-- Threads change it in atomic steps: one operation on an atomic variable, or one region under the
-- mutex. A job is the number that identifies it.
pub mod Steps
pub mod Completion
pub mod Cancellation
mod Tests
use tge_core.Prelude.{
  ℕ, ◌%◌, ◌==◌, Bool, true, false, ◌||◌, List, [], ◌∷◌, ◌++◌, Option, none, some, length,
}
use tge_core.Prelude.Words.{u64_mod, add64, sub64}

pub record State : Type 0 where
  pub active_jobs : ℕ
  pub cancelled : Bool
  pub pending : List ℕ

pub new_state : State
new_state = record { active_jobs = 0; cancelled = false; pending = [] }

-- The own flag, or that of an ancestor.
pub is_cancelled : State → List State → Bool
is_cancelled s [] = s.cancelled
is_cancelled s (parent ∷ ancestors) = s.cancelled || is_cancelled parent ancestors

-- The two steps of `SubmitJob` before it hands a runner to the scheduler.
pub count_job : State → State
count_job s = record s { active_jobs = add64 s.active_jobs 1 }

pub push_job : State → ℕ → State
push_job s job = record s { pending = s.pending ++ job ∷ [] }

-- `RunOnePending` takes a job under the mutex, and counts it down when it is done with it.
pub take_job : State → State × Option ℕ
take_job s = elim s.pending [
  | [] ↦ (s, none)
  | job ∷ rest ↦ (record s { pending = rest }, some job)
]

pub finish_job : State → State
finish_job s = record s { active_jobs = sub64 s.active_jobs 1 }

-- `Cancel` raises the flag, takes all jobs that are queued, and counts them down together; their
-- number is a `size_t`.
pub raise_flag : State → State
raise_flag s = record s { cancelled = true }

pub drop_pending : State → State × List ℕ
drop_pending s = (record s { pending = [] }, s.pending)

pub settle_dropped : State → ℕ → State
settle_dropped s num_dropped = record s {
  active_jobs = sub64 s.active_jobs (num_dropped % u64_mod);
}

pub is_complete : State → Bool
is_complete s = s.active_jobs == 0
