-- ===== src/Threading/EventLoop/Tests.antt =====
-- The event loop on concrete watches, timers and callbacks.
use tge_core.Prelude.{
  ℕ, ◌+◌, ◌*◌, ◌≤◌, ◌<◌, ◌≡◌, ◌≢◌, ◌⊎◌, Bool, true, List, [], ◌∷◌, none, some, All, length, arith,
  suc, zero,
}
use tge_core.Threading.EventLoop.{
  EventLoop, Watch, Timer, Operation, to_schedule, to_cancel, to_unwatch, new_event_loop, unwatch,
  perform, run_ready_watches, run_due_timers, get_time_until_next_timer,
}
use tge_core.Threading.EventLoop.Operations.{Removes}
use tge_core.Threading.EventLoop.Timers.{InOrder, IsDue, PassIsOver, run_due_timers_lem}
use tge_core.Threading.EventLoop.Watches.{
  IsValid, IsGone, perform-IsValid, unwatch-run_ready_watches,
}
use tge_core.Threading.EventLoop.Timeout.{get_time_until_next_timer_lem}

abbrev timer : ℕ → ℕ → ℕ → Timer
timer id when callback = record { id = id; when = when; callback = callback }

abbrev descriptor : ℕ → ℕ → ℕ → Watch
descriptor id waitable on_readable = record {
  id = id;
  waitable = waitable;
  on_readable = on_readable;
}

-- Callback 1 schedules a timer that is due at once, callback 2 cancels timer 2, and 3 unwatches 4.
abbrev requests : ℕ → List Operation
requests zero = []
requests (suc zero) = to_schedule 0 5 ∷ []
requests (suc (suc zero)) = to_cancel 2 ∷ []
requests (suc (suc (suc n))) = to_unwatch 4 ∷ []

abbrev code : EventLoop → ℕ → List Operation
code l callback = requests callback

one_request : (l : EventLoop) (callback : ℕ) → length (code l callback) ≤ 1
one_request l zero = omega arith
one_request l (suc zero) = omega arith
one_request l (suc (suc zero)) = omega arith
one_request l (suc (suc (suc n))) = omega arith

abbrev takes_all : ℕ → ℕ → Bool
takes_all waitable key = true

abbrev busy : EventLoop
busy = record new_event_loop {
  timers = timer 2 30 0 ∷ timer 0 20 2 ∷ timer 1 90 1 ∷ [];
  watches = descriptor 3 11 3 ∷ descriptor 4 12 0 ∷ [];
  next_id = 5;
}

busy-IsValid : IsValid busy
unfolding new_event_loop
busy-IsValid = record {
  watch_ids = (omega arith, (omega arith, tt));
  watches_differ = (((λ e. omega arith), tt), (tt, tt));
  timer_ids = (omega arith, (omega arith, (omega arith, tt)));
  timers_differ =
      (((λ e. omega arith), ((λ e. omega arith), tt)), (((λ e. omega arith), tt), (tt, tt)));
}

run_due_timers_lem_example :
    (last : EventLoop) × (fired : List Timer) × (run_due_timers code takes_all 50 busy
      ≡ some (last, fired))
    × InOrder fired
    × All (IsDue 50 busy.next_id) fired
    × PassIsOver 50 busy.next_id last
unfolding new_event_loop
run_due_timers_lem_example = run_due_timers_lem code takes_all 1 one_request 50 busy (omega arith)

perform-IsValid_example : IsValid (perform code takes_all busy (to_schedule 7 0))
unfolding new_event_loop
perform-IsValid_example =
    perform-IsValid code takes_all busy (to_schedule 7 0) (omega arith) busy-IsValid

unwatch-run_ready_watches_example :
    All (λ key. key ≢ 4) (run_ready_watches code takes_all (unwatch busy 4) (4 ∷ 3 ∷ [])).1
    × IsGone 4 (run_ready_watches code takes_all (unwatch busy 4) (4 ∷ 3 ∷ [])).0
unfolding new_event_loop
unwatch-run_ready_watches_example =
    unwatch-run_ready_watches code takes_all 1 one_request busy 4 (4 ∷ 3 ∷ []) (omega arith)
      busy-IsValid (omega arith)

get_time_until_next_timer_lem_example :
    ((get_time_until_next_timer busy 8 ≡ none) × (busy.timers ≡ []))
    ⊎ ((timeout : ℕ) × (get_time_until_next_timer busy 8 ≡ some timeout)
        × ((t : Timer) × (rest : List Timer) × Removes busy.timers t rest
            × (t.when ≤ 8 + timeout * 1000000))
        × All
            (λ (u : Timer). (u.when ≤ 8) ⊎ (8 + timeout * 1000000 < u.when + 1000000))
            busy.timers)
get_time_until_next_timer_lem_example = get_time_until_next_timer_lem busy 8
