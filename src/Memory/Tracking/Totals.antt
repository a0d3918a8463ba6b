-- ===== src/Memory/Tracking/Totals.antt =====
-- The totals over the registered categories.
use tge_core.Prelude.{
  ℕ, zero, suc, ◌<◌, ◌≡◌, refl, ap, List, [], ◌∷◌, some, arith, ltb, if◌then◌else◌, All, get_elem?,
  set, Option-cases, inl, inr,
}
use tge_core.Prelude.Words.{u64_mod, add64, sub64}
use tge_core.Memory.Tracking.{
  Stats, Tracker, sum_from, current_usage_of, get_total_allocated, get_total_deallocated,
  get_current_usage, track_allocation, record_allocation, update_category,
}

-- The fields of the statistics are words.
abbrev pub AreWords : List Stats → Type 0
AreWords ss = All (λ s. (s.allocated < u64_mod) × (s.deallocated < u64_mod)) ss

sub64_interchange :
    (a d x y : ℕ)
    → d < u64_mod
    → y < u64_mod
    → add64 (sub64 a d) (sub64 x y) ≡ sub64 (add64 a x) (add64 d y)
sub64_interchange a d x y h k = omega arith

usage_from :
    (ss : List Stats) (rounds a d : ℕ)
    → AreWords ss
    → d < u64_mod
    → sum_from current_usage_of ss rounds (sub64 a d)
      ≡ sub64 (sum_from (λ s. s.allocated) ss rounds a) (sum_from (λ s. s.deallocated) ss rounds d)
unfolding sum_from
usage_from [] rounds a d w h = refl
usage_from (s ∷ ss) zero a d w h = refl
usage_from (s ∷ ss) (suc rounds) a d w h =
    rw (sub64_interchange a d s.allocated s.deallocated h w.0.1)
      (usage_from ss rounds (add64 a s.allocated) (add64 d s.deallocated) w.1 (omega arith))

-- The usage over all categories is the total allocated less the total given back, on 64 bits, also
-- where a category has given back more than it allocated or a total wraps.
pub get_current_usage_lem :
    (t : Tracker)
    → AreWords t.stats
    → get_current_usage t ≡ sub64 (get_total_allocated t) (get_total_deallocated t)
unfolding get_current_usage get_total_allocated get_total_deallocated
get_current_usage_lem t w = usage_from t.stats t.num_categories 0 0 w (omega arith)

sum_from-add :
    (f : Stats → ℕ) (ss : List Stats) (rounds total bytes : ℕ)
    → sum_from f ss rounds (add64 total bytes) ≡ add64 (sum_from f ss rounds total) bytes
unfolding sum_from
sum_from-add f [] rounds total bytes = refl
sum_from-add f (s ∷ ss) zero total bytes = refl
sum_from-add f (s ∷ ss) (suc rounds) total bytes =
    let swap : add64 (add64 total bytes) (f s) ≡ add64 (add64 total (f s)) bytes = omega arith in
    rw swap (sum_from-add f ss rounds (add64 total (f s)) bytes)

-- One changed entry changes the sum by as much, if it is among those that are summed.
sum_from-set :
    (ss : List Stats) (rounds i total bytes : ℕ) (s r : Stats)
    → get_elem? ss i ≡ some s
    → r.allocated ≡ add64 s.allocated bytes
    → sum_from (λ s. s.allocated) (set ss i r) rounds total ≡ (
        if ltb i rounds
        then add64 (sum_from (λ s. s.allocated) ss rounds total) bytes
        else sum_from (λ s. s.allocated) ss rounds total)
unfolding sum_from
sum_from-set [] rounds i total bytes s r g e = cc
sum_from-set (x ∷ ss) zero zero total bytes s r g e = refl
sum_from-set (x ∷ ss) zero (suc i) total bytes s r g e = ground arith
sum_from-set (x ∷ ss) (suc rounds) zero total bytes s r g e =
    let first : add64 total r.allocated ≡ add64 (add64 total x.allocated) bytes = ground arith in
    ground (
      arith,
      ap (λ (n : ℕ). sum_from (λ s. s.allocated) ss rounds n) first,
      sum_from-add (λ s. s.allocated) ss rounds (add64 total x.allocated) bytes,
    )
sum_from-set (x ∷ ss) (suc rounds) (suc i) total bytes s r g e =
    ground (arith, sum_from-set ss rounds i (add64 total x.allocated) bytes s r g e)

record_allocation-allocated :
    (s : Stats) (bytes : ℕ) → (record_allocation s bytes).allocated ≡ add64 s.allocated bytes
unfolding record_allocation
record_allocation-allocated s bytes = ground arith

-- An allocation is counted in the total exactly if its category is a registered one; one that is
-- recorded under a category that was not registered yet shows only in that category.
pub track_allocation-total :
    (t t' : Tracker) (category bytes : ℕ)
    → track_allocation t category bytes ≡ some t'
    → get_total_allocated t' ≡ (
        if ltb category t.num_categories
        then add64 (get_total_allocated t) bytes
        else get_total_allocated t)
unfolding get_total_allocated track_allocation update_category
track_allocation-total t t' category bytes h = elim (Option-cases (get_elem? t.stats category)) [
  | inl e ↦ absurd (ground arith)
  | inr (s, e) ↦
      let same : t' ≡ record t { stats = set t.stats category (record_allocation s bytes) } =
        ground arith in
      rw same (
        sum_from-set t.stats t.num_categories category 0 bytes s (record_allocation s bytes) e
          (record_allocation-allocated s bytes))
]
