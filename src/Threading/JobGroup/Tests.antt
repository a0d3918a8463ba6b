-- ===== src/Threading/JobGroup/Tests.antt =====
-- A job that is submitted and run, and one that is cancelled.
use tge_core.Prelude.{◌+◌, ◌≤◌, ◌≡◌, refl, true, [], ◌∷◌, arith}
use tge_core.Threading.JobGroup.{
  new_state, is_cancelled, count_job, push_job, take_job, finish_job, raise_flag, is_complete,
}
use tge_core.Threading.JobGroup.Steps.{
  World, start, counts, pushes, takes, passes, executes, finishes, Reach, here, next,
}
use tge_core.Threading.JobGroup.Completion.{times, in_flight, is_complete_lem}
use tge_core.Threading.JobGroup.Cancellation.{now, then_, passes_of, cancelled_lem}

abbrev after_run : World
after_run = record start {
  group = finish_job (take_job (push_job (count_job new_state) 7)).0;
  submitted = 7 ∷ [];
  executed = 7 ∷ [];
}

after_run-Reach : Reach after_run
unfolding count_job push_job take_job finish_job new_state is_cancelled
after_run-Reach =
    next
      (next
        (next (next (next (next here (counts start 7)) (pushes _ [] 7 [] refl)) (takes _ 7 refl))
          (passes _ [] 7 [] refl refl))
        (executes _ [] 7 [] refl))
      (finishes _ 0 refl)

is_complete_lem_example :
    (in_flight after_run ≡ 0)
    × (times 7 after_run.submitted
        ≡ times 7 after_run.executed + times 7 after_run.skipped + times 7 after_run.dropped)
unfolding count_job push_job take_job finish_job new_state is_complete
is_complete_lem_example = is_complete_lem after_run 7 after_run-Reach (omega arith) refl

-- A job that passed the check before the group was cancelled, and starts after it.
abbrev cancelled_start : World
cancelled_start = record start { group = raise_flag new_state; passed = 7 ∷ [] }

abbrev cancelled_run : World
cancelled_run = record cancelled_start { passed = []; executed = 7 ∷ []; finishing = 1 }

cancelled_lem_example :
    (cancelled_run.group.cancelled ≡ true)
    × (passes_of cancelled_run 7 ≡ passes_of cancelled_start 7)
    × (1 ≤ 1)
unfolding raise_flag
cancelled_lem_example =
    cancelled_lem cancelled_start cancelled_run 7 refl
      (then_ now (executes cancelled_start [] 7 [] refl))
