-- ===== src/Threading/EventLoop/Timers.antt =====
-- `RunDueTimers`: which timers a pass runs, in which order, and that it ends.
use tge_core.Prelude.{
  ℕ, zero, suc, ◌+◌, ◌*◌, ◌≤◌, ◌<◌, ◌≡◌, refl, ◌⊎◌, inl, inr, Bool, false, List, [], ◌∷◌, some, ltb,
  leb, ltb→lt, lt→ltb, le→leb, leb→le, All, All-map, All-of_All, count_if-le-length, length,
  Bool-cases, arith,
}
use tge_core.Prelude.Words.{u64_mod}
use tge_core.Threading.EventLoop.{
  EventLoop, Timer, Operation, is_sooner, take_soonest, call, run_timers, run_due_timers,
}
use tge_core.Threading.EventLoop.Operations.{
  times_suc, is_sooner_trans, All-Removes, Removes-All, count_if-Removes, take_soonest-cases,
  count_early, perform_all-next_id, perform_all-early, perform_all-All,
}

-- No timer of the list is sooner than one that stands before it.
abbrev pub InOrder : List Timer → Type 0
InOrder [] = Unit
InOrder (t ∷ ts) = All (λ (u : Timer). is_sooner u t ≡ false) ts × InOrder ts

-- What a pass may run.
pub IsDue : ℕ → ℕ → Timer → Type 0
IsDue now pass_end t = (t.when ≤ now) × (t.id < pass_end)

-- What ends a pass: no timer is due any more, or one that a callback of the pass has scheduled, and
-- that is due, is among the soonest.
pub PassIsOver : ℕ → ℕ → EventLoop → Type 0
PassIsOver now pass_end l =
    All (λ (t : Timer). now < t.when) l.timers
    ⊎ ((t : Timer) × (rest : List Timer) × (take_soonest l.timers ≡ some (t, rest))
        × (t.when ≤ now)
        × (pass_end ≤ t.id))

module _ (code : EventLoop → ℕ → List Operation) (can_add : ℕ → ℕ → Bool) (now pass_end k : ℕ)
    (bound : (l : EventLoop) (callback : ℕ) → length (code l callback) ≤ k) where
  -- What `run_timers` gives with enough fuel, where nothing that it may run is sooner than `b`.
  Ends : Timer → ℕ → EventLoop → Type 0
  Ends b fuel l =
      (last : EventLoop) × (fired : List Timer) × (run_timers code can_add now pass_end fuel l
        ≡ some (last, fired))
      × InOrder (b ∷ fired)
      × All (IsDue now pass_end) fired
      × PassIsOver now pass_end last

  later_not_due : (t u : Timer) → now < t.when → is_sooner u t ≡ false → now < u.when
  unfolding is_sooner
  later_not_due t u h k = ground arith

  -- The turn that runs `t`, from what the turns after it give.
  fire :
      (b : Timer) (fuel : ℕ) (l : EventLoop) (t : Timer) (rest : List Timer)
      → t.when ≤ now
      → t.id < pass_end
      → is_sooner t b ≡ false
      → take_soonest l.timers ≡ some (t, rest)
      → Ends t fuel (call code can_add (record l { timers = rest }) t.callback)
      → Ends b (suc fuel) l
  unfolding run_timers Ends IsDue
  fire b fuel l t rest due early above e (last, fired, runs, ordered, all_due, over) = (
    last,
    t ∷ fired,
    rw (run_timers, e, le→leb t.when now due, lt→ltb t.id pass_end early, runs) refl,
    ((above, All-map (λ u k. is_sooner_trans b t u above k) fired ordered.0), ordered),
    ((due, early), all_due),
    over,
  )

  ends :
      (b : Timer) (fuel : ℕ) (l : EventLoop)
      → All (λ (t : Timer). t.id < pass_end → is_sooner t b ≡ false) l.timers
      → pass_end ≤ l.next_id
      → l.next_id + k * fuel < u64_mod
      → count_early pass_end l.timers < fuel
      → Ends b fuel l
  unfolding run_timers call Ends PassIsOver
  ends b zero l floor h room few = absurd (omega arith)
  ends b (suc fuel) l floor h room few = elim (take_soonest-cases l.timers) [
    | inl (e, empty) ↦ (l, [], rw (run_timers, e) refl, (tt, tt), tt, inl (rw empty tt))
    | inr (t, rest, e, r, least) ↦ elim (Bool-cases (leb t.when now)) [
      | inr not_due ↦ (
        l,
        [],
        rw (run_timers, e, not_due) refl,
        (tt, tt),
        tt,
        inl (
            Removes-All _ r (ground arith)
              (All-map (λ u. later_not_due t u (ground arith)) rest least)),
      )
      | inl due ↦ elim (Bool-cases (ltb t.id pass_end)) [
        | inr scheduled ↦ (
          l,
          [],
          rw (run_timers, e, due, scheduled) refl,
          (tt, tt),
          tt,
          inr (t, rest, e, ground arith, ground arith),
        )
        | inl early ↦
            let young : t.id < pass_end = ltb→lt t.id pass_end early in
            let ops = code (record l { timers = rest }) t.callback in
            let few_ops = bound (record l { timers = rest }) t.callback in
            let split = count_if-Removes (λ (u : Timer). ltb u.id pass_end) r in
            let turns = times_suc k fuel in
            let fits : l.next_id + length ops < u64_mod = omega arith in
            let ids = perform_all-next_id code can_add (record l { timers = rest }) ops fits in
            let fewer =
              perform_all-early code can_add pass_end (record l { timers = rest }) ops h fits in
            let above =
              perform_all-All code can_add (λ u. is_sooner u t ≡ false) pass_end
                (record l { timers = rest }) ops h fits (All-map (λ u k _. k) rest least) in
            fire b fuel l t rest (leb→le t.when now due) young ((All-Removes _ r floor).0 young) e (
              ends t fuel (call code can_add (record l { timers = rest }) t.callback) above
                (omega (arith, ids)) (omega (arith, ids)) (ground (arith, ids, fewer, split)))
      ]
    ]
  ]

abbrev bottom : Timer
bottom = record { id = 0; when = 0; callback = 0 }

is_sooner-bottom : (t : Timer) → is_sooner t bottom ≡ false
unfolding is_sooner
is_sooner-bottom t = ground arith

-- A pass of `RunDueTimers` ends, with as much fuel as there are timers and one turn more, where a
-- callback makes at most `k` requests and ids do not run out. What it runs is due and was scheduled
-- before the pass, and runs by time and then by id; what is left is not due, or a callback of the
-- pass has scheduled a timer that is due and as soon as any other.
pub run_due_timers_lem :
    (code : EventLoop → ℕ → List Operation) (can_add : ℕ → ℕ → Bool) (k : ℕ)
    (bound : (l : EventLoop) (callback : ℕ) → length (code l callback) ≤ k) (now : ℕ)
    (l : EventLoop)
    → l.next_id + k * suc (length l.timers) < u64_mod
    → (last : EventLoop) × (fired : List Timer) × (run_due_timers code can_add now l
        ≡ some (last, fired))
      × InOrder fired
      × All (IsDue now l.next_id) fired
      × PassIsOver now l.next_id last
unfolding run_due_timers Ends
run_due_timers_lem code can_add k bound now l room =
    let few = count_if-le-length (λ (t : Timer). ltb t.id l.next_id) l.timers in
    let (last, fired, runs, ordered, due, over) =
      ends code can_add now l.next_id k bound bottom (suc (length l.timers)) l
        (All-of_All (λ t early. is_sooner-bottom t) l.timers) (omega arith) room
        (omega (arith, few)) in
    (last, fired, runs, ordered.1, due, over)
