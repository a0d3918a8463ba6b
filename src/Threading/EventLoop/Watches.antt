-- ===== src/Threading/EventLoop/Watches.antt =====
-- The ids of a loop, and the callbacks of watches that are gone.
use tge_core.Prelude.{
  ℕ, ◌+◌, ◌*◌, ◌≤◌, ◌<◌, ◌≡◌, ◌≢◌, refl, sym, ap, ◌∙◌, inl, inr, Bool, List, [], ◌∷◌, none, ◌==◌,
  ==_iff, All, All-map, All-join, All-keep_if, Distinct, Distinct-concat, Distinct-keep_if, length,
  Bool-cases, Option-cases, arith,
}
use tge_core.Prelude.Words.{u64_mod}
use tge_core.Threading.EventLoop.{
  EventLoop, Watch, Timer, Operation, to_post, to_watch, to_unwatch, to_schedule, to_cancel,
  find_watch, erase_watch, post, watch, unwatch, schedule_at, cancel_timer, perform, perform_all,
  call, run_ready_watches,
}
use tge_core.Threading.EventLoop.Operations.{
  unwatch-next_id, times_suc, perform-next_id, perform_all-next_id,
}

-- Every id has been given out, and no two watches, or two timers, share one.
pub record IsValid (l : EventLoop) : Type 0 where
  pub watch_ids : All (λ (w : Watch). w.id < l.next_id) l.watches
  pub watches_differ : Distinct (λ (w : Watch). w.id) l.watches
  pub timer_ids : All (λ (t : Timer). t.id < l.next_id) l.timers
  pub timers_differ : Distinct (λ (t : Timer). t.id) l.timers

-- An id that has been given out, and is no watch's.
pub IsGone : ℕ → EventLoop → Type 0
IsGone id l = (id < l.next_id) × All (λ (w : Watch). w.id ≢ id) l.watches

All-erase_watch :
    (P : Watch → Type 0) (ws : List Watch) (id : ℕ) → All P ws → All P (erase_watch ws id)
unfolding erase_watch
All-erase_watch P [] id h = tt
All-erase_watch P (w ∷ ws) id h = elim (Bool-cases (w.id == id)) [
  | inl e ↦ rw e h.1
  | inr e ↦ rw e (h.0, All-erase_watch P ws id h.1)
]

Distinct-erase_watch :
    (ws : List Watch) (id : ℕ)
    → Distinct (λ (w : Watch). w.id) ws
    → Distinct (λ (w : Watch). w.id) (erase_watch ws id)
unfolding erase_watch
Distinct-erase_watch [] id h = tt
Distinct-erase_watch (w ∷ ws) id h = elim (Bool-cases (w.id == id)) [
  | inl e ↦ rw e h.1
  | inr e ↦ rw e (All-erase_watch _ ws id h.0, Distinct-erase_watch ws id h.1)
]

find_watch-none :
    (ws : List Watch) (id : ℕ) → All (λ (w : Watch). w.id ≢ id) ws → find_watch ws id ≡ none
unfolding find_watch
find_watch-none [] id h = refl
find_watch-none (w ∷ ws) id h = ground (arith, find_watch-none ws id h.1)

All-find_watch :
    (ws : List Watch) (id : ℕ) → find_watch ws id ≡ none → All (λ (w : Watch). w.id ≢ id) ws
unfolding find_watch
All-find_watch [] id h = tt
All-find_watch (w ∷ ws) id h = elim (Bool-cases (w.id == id)) [
  | inl e ↦ absurd (ground arith)
  | inr e ↦ ((λ same. absurd (ground arith)), All-find_watch ws id (ground arith))
]

erase_watch-All :
    (ws : List Watch) (id : ℕ)
    → Distinct (λ (w : Watch). w.id) ws
    → All (λ (w : Watch). w.id ≢ id) (erase_watch ws id)
unfolding erase_watch
erase_watch-All [] id d = tt
erase_watch-All (w ∷ ws) id d = elim (Bool-cases (w.id == id)) [
  | inl e ↦ rw e (All-map (λ v ne same. ne (same ∙ sym ((==_iff w.id id).0 e))) ws d.0)
  | inr e ↦ rw e ((λ same. absurd (ground arith)), erase_watch-All ws id d.1)
]

-- Every operation keeps the ids in order, as long as they do not run out: each has been given out,
-- and no two watches, or two timers, share one.
pub perform-IsValid :
    (code : EventLoop → ℕ → List Operation) (can_add : ℕ → ℕ → Bool) (l : EventLoop)
    (op : Operation)
    → l.next_id + 1 < u64_mod
    → IsValid l
    → IsValid (perform code can_add l op)
unfolding perform post watch unwatch schedule_at cancel_timer
perform-IsValid code can_add l (to_post callback) h v = record {
  watch_ids = v.watch_ids;
  watches_differ = v.watches_differ;
  timer_ids = v.timer_ids;
  timers_differ = v.timers_differ;
}
perform-IsValid code can_add l (to_watch waitable on_readable) h v =
    elim (Bool-cases (can_add waitable l.next_id)) [
      | inl e ↦
          rw (perform, watch, e)
            (record {
              watch_ids =
                  All-join _ l.watches _ (All-map (λ w lt. omega arith) l.watches v.watch_ids)
                    (omega arith, tt);
              watches_differ =
                  Distinct-concat _ l.watches _
                    (All-map (λ w lt e. omega arith) l.watches v.watch_ids) v.watches_differ;
              timer_ids = All-map (λ t lt. omega arith) l.timers v.timer_ids;
              timers_differ = v.timers_differ;
            })
      | inr e ↦ rw (perform, watch, e) v
    ]
perform-IsValid code can_add l (to_unwatch id) h v = elim (Option-cases (find_watch l.watches id)) [
  | inl e ↦ rw (perform, unwatch, e) v
  | inr (w, e) ↦
      rw (perform, unwatch, e)
        (record {
          watch_ids = All-erase_watch _ l.watches id v.watch_ids;
          watches_differ = Distinct-erase_watch l.watches id v.watches_differ;
          timer_ids = v.timer_ids;
          timers_differ = v.timers_differ;
        })
]
perform-IsValid code can_add l (to_schedule when callback) h v = record {
  watch_ids = All-map (λ w lt. omega arith) l.watches v.watch_ids;
  watches_differ = v.watches_differ;
  timer_ids =
      All-join _ l.timers _ (All-map (λ t lt. omega arith) l.timers v.timer_ids) (omega arith, tt);
  timers_differ =
      Distinct-concat _ l.timers _ (All-map (λ t lt e. omega arith) l.timers v.timer_ids)
        v.timers_differ;
}
perform-IsValid code can_add l (to_cancel timer) h v = record {
  watch_ids = v.watch_ids;
  watches_differ = v.watches_differ;
  timer_ids = All-keep_if _ _ l.timers v.timer_ids;
  timers_differ = Distinct-keep_if _ _ l.timers v.timers_differ;
}

module _ (code : EventLoop → ℕ → List Operation) (can_add : ℕ → ℕ → Bool) (id : ℕ) where
  perform-IsGone :
      (l : EventLoop) (op : Operation)
      → l.next_id + 1 < u64_mod
      → IsGone id l
      → IsGone id (perform code can_add l op)
  unfolding IsGone perform post watch unwatch schedule_at cancel_timer
  perform-IsGone l (to_post callback) h gone = gone
  perform-IsGone l (to_watch waitable on_readable) h gone =
      elim (Bool-cases (can_add waitable l.next_id)) [
        | inl e ↦
            rw (perform, watch, e)
              (
                omega (arith, gone.0),
                All-join _ l.watches _ gone.1 ((λ e. omega (arith, gone.0)), tt),
              )
        | inr e ↦ rw (perform, watch, e) gone
      ]
  perform-IsGone l (to_unwatch other) h gone = elim (Option-cases (find_watch l.watches other)) [
    | inl e ↦ rw (perform, unwatch, e) gone
    | inr (w, e) ↦ rw (perform, unwatch, e) (gone.0, All-erase_watch _ l.watches other gone.1)
  ]
  perform-IsGone l (to_schedule when callback) h gone = (omega (arith, gone.0), gone.1)
  perform-IsGone l (to_cancel timer) h gone = gone

  perform_all-IsGone :
      (l : EventLoop) (ops : List Operation)
      → l.next_id + length ops < u64_mod
      → IsGone id l
      → IsGone id (perform_all code can_add l ops)
  unfolding perform_all
  perform_all-IsGone l [] h gone = gone
  perform_all-IsGone l (op ∷ ops) h gone =
      let ids = perform-next_id code can_add l op (omega arith) in
      perform_all-IsGone (perform code can_add l op) ops (omega (arith, ids))
        (perform-IsGone l op (omega arith) gone)

  module _ (k : ℕ) (bound : (l : EventLoop) (callback : ℕ) → length (code l callback) ≤ k) where
    never_called :
        (keys : List ℕ) (l : EventLoop)
        → l.next_id + k * length keys < u64_mod
        → IsGone id l
        → All (λ key. key ≢ id) (run_ready_watches code can_add l keys).1
          × IsGone id (run_ready_watches code can_add l keys).0
    unfolding run_ready_watches call IsGone
    never_called [] l h gone = (tt, gone)
    never_called (key ∷ keys) l h gone = elim (Option-cases (find_watch l.watches key)) [
      | inl e ↦ rw (run_ready_watches, e) (never_called keys l (ground arith) gone)
      | inr (w, e) ↦
          let ops = code l w.on_readable in
          let few = bound l w.on_readable in
          let turns = times_suc k (length keys) in
          let fits : l.next_id + length ops < u64_mod = omega arith in
          let ids = perform_all-next_id code can_add l ops fits in
          let (others, still) =
            never_called keys (call code can_add l w.on_readable) (omega (arith, ids))
              (perform_all-IsGone l ops fits gone) in
          let missing = find_watch-none l.watches id gone.1 in
          let key_differs : key ≢ id = (λ same.
            let found = ap (find_watch l.watches) same in
            absurd (ground (arith, e, found, missing))) in
          rw (run_ready_watches, e) ((key_differs, others), still)
    ]

unwatch-IsGone : (l : EventLoop) (id : ℕ) → IsValid l → id < l.next_id → IsGone id (unwatch l id)
unfolding unwatch IsGone
unwatch-IsGone l id v given = elim (Option-cases (find_watch l.watches id)) [
  | inl e ↦ rw (unwatch, e) (given, All-find_watch l.watches id e)
  | inr (w, e) ↦ rw (unwatch, e) (given, erase_watch-All l.watches id v.watches_differ)
]

-- Once a watch is taken away its callback is never run again: not for a descriptor that was ready
-- with it, and not for one that a callback of the pass watches instead, since ids are not given out
-- twice. A callback makes at most `k` requests, and ids do not run out.
pub unwatch-run_ready_watches :
    (code : EventLoop → ℕ → List Operation) (can_add : ℕ → ℕ → Bool) (k : ℕ)
    (bound : (l : EventLoop) (callback : ℕ) → length (code l callback) ≤ k) (l : EventLoop) (id : ℕ)
    (keys : List ℕ)
    → l.next_id + k * length keys < u64_mod
    → IsValid l
    → id < l.next_id
    → All (λ key. key ≢ id) (run_ready_watches code can_add (unwatch l id) keys).1
      × IsGone id (run_ready_watches code can_add (unwatch l id) keys).0
unwatch-run_ready_watches code can_add k bound l id keys room v given =
    never_called code can_add id k bound keys (unwatch l id) (rw (unwatch-next_id l id) room)
      (unwatch-IsGone l id v given)
