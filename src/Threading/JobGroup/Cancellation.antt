-- ===== src/Threading/JobGroup/Cancellation.antt =====
-- A job group that was cancelled.
use tge_core.Prelude.{ℕ, ◌+◌, ◌≤◌, ◌≡◌, refl, ◌∙◌, true, List, [], ◌∷◌, arith}
use tge_core.Threading.JobGroup.{
  State, is_cancelled, count_job, push_job, take_job, finish_job, raise_flag, drop_pending,
  settle_dropped,
}
use tge_core.Threading.JobGroup.Steps.{
  World, Step, counts, pushes, takes, passes, executes, skips, finishes, raises, drops, settles,
  ancestors_change,
}
use tge_core.Threading.JobGroup.Completion.{times, times-in, times-out}

-- What may happen from a moment on.
pub data Later (v : World) : World → Type 0 where
  now : Later v v
  then_ : {u w : World} → Later v u → Step u w → Later v w

is_cancelled-own :
    (s : State) (ancestors : List State) → s.cancelled ≡ true → is_cancelled s ancestors ≡ true
unfolding is_cancelled
is_cancelled-own s [] e = e
is_cancelled-own s (p ∷ ps) e = rw e refl

take_job-flag : (s : State) → (take_job s).0.cancelled ≡ s.cancelled
unfolding take_job
take_job-flag s = ground arith

-- How often a job passed the check of the flags, whether or not its body started since.
abbrev pub passes_of : World → ℕ → ℕ
passes_of w job = times job w.passed + times job w.executed

Step-cancelled :
    {v w : World} (job : ℕ)
    → Step v w
    → v.group.cancelled ≡ true
    → (w.group.cancelled ≡ true) × (passes_of w job ≡ passes_of v job)
unfolding count_job push_job finish_job raise_flag drop_pending settle_dropped
Step-cancelled j (counts w job) e = (e, refl)
Step-cancelled j (pushes w xs job ys _) e = (e, refl)
Step-cancelled j (takes w job _) e = (take_job-flag w.group ∙ e, refl)
Step-cancelled j (passes w xs job ys _ b) e =
    absurd (cc (b, is_cancelled-own w.group w.ancestors e))
Step-cancelled j (executes w xs job ys p) e =
    (e, omega (arith, times-out j xs job ys w.passed p, times-in j job w.executed))
Step-cancelled j (skips w xs job ys _ _) e = (e, refl)
Step-cancelled j (finishes w n _) e = (e, refl)
Step-cancelled j (raises w) e = (refl, refl)
Step-cancelled j (drops w _) e = (e, refl)
Step-cancelled j (settles w xs n ys _) e = (e, refl)
Step-cancelled j (ancestors_change w _) e = (e, refl)

-- Cancellation is final: once the flag of a group is up, it stays up, and no job passes the check of
-- the flags any more, whatever the threads do and however many jobs are still submitted. The only
-- bodies that still start are those of jobs that had passed it before, each as often as it had.
pub cancelled_lem :
    (v w : World) (job : ℕ)
    → v.group.cancelled ≡ true
    → Later v w
    → (w.group.cancelled ≡ true)
      × (passes_of w job ≡ passes_of v job)
      × (times job w.executed ≤ times job v.executed + times job v.passed)
cancelled_lem v _ job e now = (e, refl, omega arith)
cancelled_lem v w job e (then_ {u} l st) =
    let (up, same, _) = cancelled_lem v u job e l in
    let (up', same') = Step-cancelled job st up in (up', same' ∙ same, omega (arith, same, same'))
