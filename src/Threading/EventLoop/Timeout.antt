-- ===== src/Threading/EventLoop/Timeout.antt =====
-- How long the loop waits.
use tge_core.Prelude.{
  ℕ, ◌+◌, ◌-◌, ◌*◌, ◌/◌, ◌≤◌, ◌<◌, ◌≡◌, refl, ◌⊎◌, inl, inr, false, List, [], none, some, ltb, leb,
  ltb→lt, All, All-map, All-of_All, Bool-cases, arith,
}
use tge_core.Threading.EventLoop.{EventLoop, Timer, is_sooner, get_time_until_next_timer}
use tge_core.Threading.EventLoop.Operations.{Removes, Removes-All, take_soonest-cases}

not_sooner_when : (t u : Timer) → is_sooner u t ≡ false → t.when ≤ u.when
unfolding is_sooner
not_sooner_when t u h = ground arith

-- Milliseconds rounded up.
ceil_bounds :
    (a : ℕ)
    → (a ≤ (a + 999999) / 1000000 * 1000000) × ((a + 999999) / 1000000 * 1000000 < a + 1000000)
ceil_bounds a = omega arith

within : (now : ℕ) (u : Timer) → (u.when ≤ now) ⊎ (now + 0 * 1000000 < u.when + 1000000)
within now u = elim (Bool-cases (leb u.when now)) [
  | inl due ↦ inl (ground arith)
  | inr later ↦ inr (ground arith)
]

-- The wait is unbounded only without timers. Else some timer is due when it is over, and none has
-- been due for a millisecond by then that was not already due when it began.
pub get_time_until_next_timer_lem :
    (l : EventLoop) (now : ℕ)
    → ((get_time_until_next_timer l now ≡ none) × (l.timers ≡ []))
      ⊎ ((timeout : ℕ) × (get_time_until_next_timer l now ≡ some timeout)
          × ((t : Timer) × (rest : List Timer) × Removes l.timers t rest
              × (t.when ≤ now + timeout * 1000000))
          × All
              (λ (u : Timer). (u.when ≤ now) ⊎ (now + timeout * 1000000 < u.when + 1000000))
              l.timers)
unfolding get_time_until_next_timer
get_time_until_next_timer_lem l now = elim (take_soonest-cases l.timers) [
  | inl (e, empty) ↦ inl (rw (get_time_until_next_timer, e) refl, empty)
  | inr (t, rest, e, r, least) ↦ elim (Bool-cases (ltb now t.when)) [
    | inl later ↦ inr (
      (t.when - now + 999999) / 1000000,
      rw (get_time_until_next_timer, e, later) refl,
      (t, rest, r, omega (arith, ceil_bounds (t.when - now), ltb→lt now t.when later)),
      Removes-All _ r (inr (omega (arith, ceil_bounds (t.when - now), ltb→lt now t.when later))) (
          All-map
            (λ u k. inr (
              omega (
                arith,
                ceil_bounds (t.when - now),
                ltb→lt now t.when later,
                not_sooner_when t u k,
              )))
            rest least),
    )
    | inr due ↦ inr (
      0,
      rw (get_time_until_next_timer, e, due) refl,
      (t, rest, r, ground arith),
      All-of_All (within now) l.timers,
    )
  ]
]
