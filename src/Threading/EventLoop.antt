-- ===== src/Threading/EventLoop.antt =====
-- private/threading/event_loop.cpp: one thread that runs the callbacks of watches, posts and timers.
-- A callback is a number; what its code asks of the loop is the parameter `code`, and whether the
-- system takes a waitable is the parameter `can_add`. Times are nanoseconds.
pub mod Operations
pub mod Timers
pub mod Watches
pub mod Timeout
mod Tests
use tge_core.Prelude.{
  ℕ, zero, suc, ◌+◌, ◌-◌, ◌/◌, ◌==◌, ltb, leb, Bool, true, false, not, ◌&&◌, ◌||◌, List, [], ◌∷◌,
  ◌++◌, Option, none, some, if◌then◌else◌, any, keep_if, length,
}
use tge_core.Prelude.Words.{add64}

pub record Watch : Type 0 where
  pub id : ℕ
  pub waitable : ℕ
  pub on_readable : ℕ

pub record Timer : Type 0 where
  pub id : ℕ
  pub when : ℕ
  pub callback : ℕ

pub record EventLoop : Type 0 where
  pub is_stopping : Bool
  pub posts : List ℕ
  pub watches : List Watch
  pub timers : List Timer
  pub next_id : ℕ

pub new_event_loop : EventLoop
new_event_loop = record { is_stopping = false; posts = []; watches = []; timers = []; next_id = 0 }

-- What a callback can ask of the loop.
pub data Operation : Type 0 where
  to_post : ℕ → Operation
  to_watch : ℕ → ℕ → Operation
  to_unwatch : ℕ → Operation
  to_schedule : ℕ → ℕ → Operation
  to_cancel : ℕ → Operation

pub find_watch : List Watch → ℕ → Option Watch
find_watch [] id = none
find_watch (w ∷ ws) id = if w.id == id then some w else find_watch ws id

pub is_sooner : Timer → Timer → Bool
is_sooner first second =
    ltb first.when second.when || ((first.when == second.when) && ltb first.id second.id)

pub post : EventLoop → ℕ → EventLoop
post l callback = record l { posts = l.posts ++ callback ∷ [] }

-- `Watch`: the id is used up only when the poller takes the waitable.
pub watch : (ℕ → ℕ → Bool) → EventLoop → ℕ → ℕ → EventLoop × Option ℕ
watch can_add l waitable on_readable =
    if can_add waitable l.next_id
    then (
      record l {
        next_id = add64 l.next_id 1;
        watches =
            l.watches
            ++ record { id = l.next_id; waitable = waitable; on_readable = on_readable } ∷ [];
      },
      some l.next_id,
    )
    else (l, none)

-- `erase(found)`, the first with the id.
pub erase_watch : List Watch → ℕ → List Watch
erase_watch [] id = []
erase_watch (w ∷ ws) id = let rest = erase_watch ws id in if w.id == id then ws else w ∷ rest

pub unwatch : EventLoop → ℕ → EventLoop
unfolding find_watch erase_watch
unwatch l id = elim (find_watch l.watches id) [
  | none ↦ l
  | some w ↦ record l { watches = erase_watch l.watches id }
]

pub schedule_at : EventLoop → ℕ → ℕ → EventLoop × ℕ
schedule_at l when callback = (
  record l {
    next_id = add64 l.next_id 1;
    timers = l.timers ++ record { id = l.next_id; when = when; callback = callback } ∷ [];
  },
  l.next_id,
)

pub cancel_timer : EventLoop → ℕ → EventLoop
cancel_timer l timer = record l { timers = keep_if (λ (t : Timer). not (t.id == timer)) l.timers }

-- `min_element`, the first of the soonest, and the timers without it.
pub take_soonest : List Timer → Option (Timer × List Timer)
unfolding is_sooner
take_soonest [] = none
take_soonest (t ∷ ts) = elim (take_soonest ts) [
  | none ↦ some (t, [])
  | some (u, rest) ↦ if is_sooner u t then some (u, t ∷ rest) else some (t, ts)
]

-- `GetTimeUntilNextTimer`, in milliseconds.
pub get_time_until_next_timer : EventLoop → ℕ → Option ℕ
get_time_until_next_timer l now = elim (take_soonest l.timers) [
  | none ↦ none
  | some (next, rest) ↦ some (if ltb now next.when then (next.when - now + 999999) / 1000000 else 0)
]

module _ (code : EventLoop → ℕ → List Operation) (can_add : ℕ → ℕ → Bool) where
  pub perform : EventLoop → Operation → EventLoop
  perform l (to_post callback) = post l callback
  perform l (to_watch waitable on_readable) = (watch can_add l waitable on_readable).0
  perform l (to_unwatch id) = unwatch l id
  perform l (to_schedule when callback) = (schedule_at l when callback).0
  perform l (to_cancel timer) = cancel_timer l timer

  pub perform_all : EventLoop → List Operation → EventLoop
  perform_all l [] = l
  perform_all l (op ∷ ops) = perform_all (perform l op) ops

  pub call : EventLoop → ℕ → EventLoop
  call l callback = perform_all l (code l callback)

  -- `RunReadyWatches`, with the ids whose callback it has run.
  pub run_ready_watches : EventLoop → List ℕ → EventLoop × List ℕ
  run_ready_watches l [] = (l, [])
  run_ready_watches l (key ∷ keys) = elim (find_watch l.watches key) [
    | none ↦ run_ready_watches l keys
    | some found ↦
        let (last, called) = run_ready_watches (call l found.on_readable) keys in
        (last, key ∷ called)
  ]

  pub call_all : EventLoop → List ℕ → EventLoop
  call_all l [] = l
  call_all l (callback ∷ callbacks) = call_all (call l callback) callbacks

  -- `RunPosts`: the queue is drained first.
  pub run_posts : EventLoop → EventLoop
  run_posts l = call_all (record l { posts = [] }) l.posts

  -- The loop of `RunDueTimers`, with the timers that it has run, in order. `none` is out of fuel.
  pub run_timers : ℕ → ℕ → ℕ → EventLoop → Option (EventLoop × List Timer)
  run_timers now pass_end zero l = none
  run_timers now pass_end (suc fuel) l = elim (take_soonest l.timers) [
    | none ↦ some (l, [])
    | some (next, rest) ↦
        if leb next.when now && ltb next.id pass_end
        then elim (run_timers now pass_end fuel (call (record l { timers = rest }) next.callback)) [
          | none ↦ none
          | some (last, fired) ↦ some (last, next ∷ fired)
        ]
        else some (l, [])
  ]

  pub run_due_timers : ℕ → EventLoop → Option (EventLoop × List Timer)
  run_due_timers now l = run_timers now l.next_id (suc (length l.timers)) l
