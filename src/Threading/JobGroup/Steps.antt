-- ===== src/Threading/JobGroup/Steps.antt =====
-- The threads that use a job group, step by step, and what becomes of its jobs.
use tge_core.Prelude.{ℕ, suc, ◌+◌, ◌≡◌, true, false, List, [], ◌∷◌, ◌++◌, some, length}
use tge_core.Threading.JobGroup.{
  State, new_state, is_cancelled, count_job, push_job, take_job, finish_job, raise_flag,
  drop_pending, settle_dropped,
}

-- The group, and the threads between their steps: jobs counted but not queued yet, jobs taken, jobs
-- that passed the check of the flags and whose body did not start yet, the number of jobs whose
-- count is still to go down after their runs, and after a cancellation. The rest is a record of what
-- happened; a job is among the executed ones as soon as its body starts.
pub record World : Type 0 where
  pub group : State
  pub ancestors : List State
  pub arriving : List ℕ
  pub taken : List ℕ
  pub passed : List ℕ
  pub finishing : ℕ
  pub settling : List ℕ
  pub submitted : List ℕ
  pub executed : List ℕ
  pub skipped : List ℕ
  pub dropped : List ℕ

abbrev pub start : World
start = record {
  group = new_state;
  ancestors = [];
  arriving = [];
  taken = [];
  passed = [];
  finishing = 0;
  settling = [];
  submitted = [];
  executed = [];
  skipped = [];
  dropped = [];
}

-- What a thread may do next. The group is cancelled by `Cancel` or with an ancestor. `IsCancelled`
-- reads the flags in one step, `passes` or `skips`, and other threads may raise them before the body
-- starts in another, `executes`.
pub data Step : World → World → Type 0 where
  counts :
      (w : World) (job : ℕ)
      → Step w (record w {
        group = count_job w.group;
        arriving = job ∷ w.arriving;
        submitted = job ∷ w.submitted;
      })
  pushes :
      (w : World) (xs : List ℕ) (job : ℕ) (ys : List ℕ)
      → w.arriving ≡ xs ++ job ∷ ys
      → Step w (record w { group = push_job w.group job; arriving = xs ++ ys })
  takes :
      (w : World) (job : ℕ)
      → (take_job w.group).1 ≡ some job
      → Step w (record w { group = (take_job w.group).0; taken = job ∷ w.taken })
  passes :
      (w : World) (xs : List ℕ) (job : ℕ) (ys : List ℕ)
      → w.taken ≡ xs ++ job ∷ ys
      → is_cancelled w.group w.ancestors ≡ false
      → Step w (record w { taken = xs ++ ys; passed = job ∷ w.passed })
  executes :
      (w : World) (xs : List ℕ) (job : ℕ) (ys : List ℕ)
      → w.passed ≡ xs ++ job ∷ ys
      → Step w
          (record w { passed = xs ++ ys; executed = job ∷ w.executed; finishing = w.finishing + 1 })
  skips :
      (w : World) (xs : List ℕ) (job : ℕ) (ys : List ℕ)
      → w.taken ≡ xs ++ job ∷ ys
      → is_cancelled w.group w.ancestors ≡ true
      → Step w
          (record w { taken = xs ++ ys; skipped = job ∷ w.skipped; finishing = w.finishing + 1 })
  finishes :
      (w : World) (n : ℕ)
      → w.finishing ≡ suc n
      → Step w (record w { group = finish_job w.group; finishing = n })
  raises : (w : World) → Step w (record w { group = raise_flag w.group })
  drops :
      (w : World)
      → w.group.cancelled ≡ true
      → Step w (record w {
        group = (drop_pending w.group).0;
        settling = length (drop_pending w.group).1 ∷ w.settling;
        dropped = (drop_pending w.group).1 ++ w.dropped;
      })
  settles :
      (w : World) (xs : List ℕ) (n : ℕ) (ys : List ℕ)
      → w.settling ≡ xs ++ n ∷ ys
      → Step w (record w { group = settle_dropped w.group n; settling = xs ++ ys })
  ancestors_change :
      (w : World) (ancestors : List State) → Step w (record w { ancestors = ancestors })

pub data Reach : World → Type 0 where
  here : Reach start
  next : {v w : World} → Reach v → Step v w → Reach w
