-- ===== src/Threading/EventLoop/Operations.antt =====
-- What `take_soonest` finds, and what the operations do to the ids and the timers.
use tge_core.Prelude.{
  ℕ, suc, ◌+◌, ◌*◌, ◌≤◌, ◌<◌, ◌≡◌, refl, subst, ◌⊎◌, inl, inr, Bool, true, false, List, [], ◌∷◌,
  none, some, ltb, All, All-map, All-keep_if, All-join, count_if, count_if-append, length, keep_if,
  Bool-cases, Option-cases, arith,
}
use tge_core.Prelude.Words.{u64_mod}
use tge_core.Threading.EventLoop.{
  EventLoop, Timer, Operation, to_post, to_watch, to_unwatch, to_schedule, to_cancel, is_sooner,
  take_soonest, perform, perform_all, post, watch, unwatch, schedule_at, cancel_timer, find_watch,
}

pub times_suc : (a b : ℕ) → a * suc b ≡ a + a * b
times_suc a b = ground arith

-- `Removes ts t rest`: `rest` is `ts` without one `t`.
pub data Removes : List Timer → Timer → List Timer → Type 0 where
  here : {t : Timer} {ts : List Timer} → Removes (t ∷ ts) t ts
  there : {x t : Timer} {ts rest : List Timer} → Removes ts t rest → Removes (x ∷ ts) t (x ∷ rest)

module _ (Q : Timer → Type 0) where
  pub All-Removes :
      {ts : List Timer} {t : Timer} {rest : List Timer}
      → Removes ts t rest
      → All Q ts
      → Q t × All Q rest
  All-Removes here h = h
  All-Removes (there r) h = let (first, others) = All-Removes r h.1 in (first, (h.0, others))

  pub Removes-All :
      {ts : List Timer} {t : Timer} {rest : List Timer}
      → Removes ts t rest
      → Q t
      → All Q rest
      → All Q ts
  Removes-All here q h = (q, h)
  Removes-All (there r) q h = (h.0, Removes-All r q h.1)

pub count_if-Removes :
    (p : Timer → Bool) {ts : List Timer} {t : Timer} {rest : List Timer}
    → Removes ts t rest
    → count_if p ts ≡ count_if p (t ∷ rest)
count_if-Removes p here = refl
count_if-Removes p (there r) = ground (arith, count_if-Removes p r)

is_sooner_asym : (t u : Timer) → is_sooner t u ≡ true → is_sooner u t ≡ false
unfolding is_sooner
is_sooner_asym t u h = ground arith

pub is_sooner_trans :
    (t u v : Timer) → is_sooner u t ≡ false → is_sooner v u ≡ false → is_sooner v t ≡ false
unfolding is_sooner
is_sooner_trans t u v h k = ground arith

is_sooner_irrefl : (t : Timer) → is_sooner t t ≡ false
unfolding is_sooner
is_sooner_irrefl t = ground arith

-- What `take_soonest` finds: nothing, or a timer than which none of the rest is sooner.
pub take_soonest-cases :
    (ts : List Timer)
    → ((take_soonest ts ≡ none) × (ts ≡ []))
      ⊎ ((t : Timer) × (rest : List Timer) × (take_soonest ts ≡ some (t, rest))
          × Removes ts t rest
          × All (λ (u : Timer). is_sooner u t ≡ false) rest)
unfolding take_soonest
take_soonest-cases [] = inl (refl, refl)
take_soonest-cases (t ∷ ts) = elim (take_soonest-cases ts) [
  | inl (e, empty) ↦ inr (t, [], rw e refl, subst (λ xs. Removes (t ∷ ts) t xs) empty here, tt)
  | inr (u, rest, e, r, least) ↦ elim (Bool-cases (is_sooner u t)) [
    | inl h ↦ inr (u, t ∷ rest, rw (e, h) refl, there r, (is_sooner_asym u t h, least))
    | inr h ↦
        let others : All (λ (v : Timer). is_sooner v u ≡ false) ts =
          Removes-All _ r (is_sooner_irrefl u) least in
        inr (t, ts, rw (e, h) refl, here, All-map (λ v k. is_sooner_trans t u v h k) ts others)
  ]
]

pub unwatch-next_id : (l : EventLoop) (id : ℕ) → (unwatch l id).next_id ≡ l.next_id
unfolding unwatch
unwatch-next_id l id = elim (Option-cases (find_watch l.watches id)) [
  | inl e ↦ rw (unwatch, e) refl
  | inr (w, e) ↦ rw (unwatch, e) refl
]

pub unwatch-timers : (l : EventLoop) (id : ℕ) → (unwatch l id).timers ≡ l.timers
unfolding unwatch
unwatch-timers l id = elim (Option-cases (find_watch l.watches id)) [
  | inl e ↦ rw (unwatch, e) refl
  | inr (w, e) ↦ rw (unwatch, e) refl
]

pub watch-timers :
    (can_add : ℕ → ℕ → Bool) (l : EventLoop) (waitable on_readable : ℕ)
    → (watch can_add l waitable on_readable).0.timers ≡ l.timers
unfolding watch
watch-timers can_add l waitable on_readable = ground arith

count_if-keep_if :
    (p q : Timer → Bool) (ts : List Timer) → count_if p (keep_if q ts) ≤ count_if p ts
count_if-keep_if p q [] = omega arith
count_if-keep_if p q (t ∷ ts) = ground (arith, count_if-keep_if p q ts)

-- The timers that were scheduled before `pass_end` was given out.
abbrev pub count_early : ℕ → List Timer → ℕ
count_early pass_end ts = count_if (λ (t : Timer). ltb t.id pass_end) ts

module _ (code : EventLoop → ℕ → List Operation) (can_add : ℕ → ℕ → Bool) where
  -- Ids below 2^64 do not wrap.
  pub perform-next_id :
      (l : EventLoop) (op : Operation)
      → l.next_id + 1 < u64_mod
      → (l.next_id ≤ (perform code can_add l op).next_id)
        × ((perform code can_add l op).next_id ≤ l.next_id + 1)
  unfolding perform post watch schedule_at cancel_timer
  perform-next_id l (to_post callback) h = omega arith
  perform-next_id l (to_watch waitable on_readable) h = ground arith
  perform-next_id l (to_unwatch id) h = rw (unwatch-next_id l id) (omega arith)
  perform-next_id l (to_schedule when callback) h = omega arith
  perform-next_id l (to_cancel timer) h = omega arith

  pub perform_all-next_id :
      (l : EventLoop) (ops : List Operation)
      → l.next_id + length ops < u64_mod
      → (l.next_id ≤ (perform_all code can_add l ops).next_id)
        × ((perform_all code can_add l ops).next_id ≤ l.next_id + length ops)
  unfolding perform_all
  perform_all-next_id l [] h = omega arith
  perform_all-next_id l (op ∷ ops) h =
      let (low, high) = perform-next_id l op (omega arith) in
      let (low', high') = perform_all-next_id (perform code can_add l op) ops (omega arith) in
      omega arith

  -- An operation adds no timer with an id below `pass_end`.
  perform-early :
      (pass_end : ℕ) (l : EventLoop) (op : Operation)
      → pass_end ≤ l.next_id
      → count_early pass_end (perform code can_add l op).timers ≤ count_early pass_end l.timers
  unfolding perform post schedule_at cancel_timer
  perform-early pass_end l (to_post callback) h = omega arith
  perform-early pass_end l (to_watch waitable on_readable) h =
      rw (watch-timers can_add l waitable on_readable) (omega arith)
  perform-early pass_end l (to_unwatch id) h = rw (unwatch-timers l id) (omega arith)
  perform-early pass_end l (to_schedule when callback) h =
      let added : Timer = record { id = l.next_id; when = when; callback = callback } in
      let parts = count_if-append (λ (t : Timer). ltb t.id pass_end) l.timers (added ∷ []) in
      ground arith
  perform-early pass_end l (to_cancel timer) h = count_if-keep_if _ _ l.timers

  perform-All :
      (Q : Timer → Type 0) (pass_end : ℕ) (l : EventLoop) (op : Operation)
      → pass_end ≤ l.next_id
      → All (λ (t : Timer). t.id < pass_end → Q t) l.timers
      → All (λ (t : Timer). t.id < pass_end → Q t) (perform code can_add l op).timers
  unfolding perform post schedule_at cancel_timer
  perform-All Q pass_end l (to_post callback) h all = all
  perform-All Q pass_end l (to_watch waitable on_readable) h all =
      rw (watch-timers can_add l waitable on_readable) all
  perform-All Q pass_end l (to_unwatch id) h all = rw (unwatch-timers l id) all
  perform-All Q pass_end l (to_schedule when callback) h all =
      All-join _ l.timers _ all ((λ lt. absurd (omega arith)), tt)
  perform-All Q pass_end l (to_cancel timer) h all = All-keep_if _ _ l.timers all

  pub perform_all-early :
      (pass_end : ℕ) (l : EventLoop) (ops : List Operation)
      → pass_end ≤ l.next_id
      → l.next_id + length ops < u64_mod
      → count_early pass_end (perform_all code can_add l ops).timers ≤ count_early pass_end l.timers
  unfolding perform_all
  perform_all-early pass_end l [] h room = omega arith
  perform_all-early pass_end l (op ∷ ops) h room =
      let next = perform-next_id l op (omega arith) in
      let first = perform-early pass_end l op h in
      let rest =
        perform_all-early pass_end (perform code can_add l op) ops (omega arith) (omega arith) in
      omega arith

  pub perform_all-All :
      (Q : Timer → Type 0) (pass_end : ℕ) (l : EventLoop) (ops : List Operation)
      → pass_end ≤ l.next_id
      → l.next_id + length ops < u64_mod
      → All (λ (t : Timer). t.id < pass_end → Q t) l.timers
      → All (λ (t : Timer). t.id < pass_end → Q t) (perform_all code can_add l ops).timers
  unfolding perform_all
  perform_all-All Q pass_end l [] h room all = all
  perform_all-All Q pass_end l (op ∷ ops) h room all =
      let (low, high) = perform-next_id l op (omega arith) in
      perform_all-All Q pass_end (perform code can_add l op) ops (omega arith) (omega arith)
        (perform-All Q pass_end l op h all)
