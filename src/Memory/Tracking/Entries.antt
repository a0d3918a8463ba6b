-- ===== src/Memory/Tracking/Entries.antt =====
-- What a recorded allocation leaves in its category.
use tge_core.Prelude.{ℕ, zero, suc, ◌≡◌, refl, List, [], ◌∷◌, some, get_elem?, set}
use tge_core.Memory.Tracking.{
  Tracker, Stats, get_stats, record_allocation, record_deallocation, update_category,
  track_allocation, track_deallocation,
}

get_elem?-set {ℓ} :
    {A : Type ℓ}
    → (xs : List A) (i : ℕ) (a v : A) → get_elem? xs i ≡ some a
    → get_elem? (set xs i v) i ≡ some v
get_elem?-set [] i a v e = cc
get_elem?-set (x ∷ xs) zero a v e = refl
get_elem?-set (x ∷ xs) (suc i) a v e = get_elem?-set xs i a v e

pub track_allocation-get_stats :
    (t : Tracker) (category bytes : ℕ) (s : Stats)
    → get_stats t category ≡ some s
    → (t' : Tracker) × (track_allocation t category bytes ≡ some t')
      × (get_stats t' category ≡ some (record_allocation s bytes))
unfolding track_allocation get_stats update_category
track_allocation-get_stats t category bytes s e =
    let found : get_elem? t.stats category ≡ some s = e in
    (
      record t { stats = set t.stats category (record_allocation s bytes) },
      rw (found, track_allocation, update_category) refl,
      get_elem?-set t.stats category s (record_allocation s bytes) e,
    )

pub track_deallocation-get_stats :
    (t : Tracker) (category bytes : ℕ) (s : Stats)
    → get_stats t category ≡ some s
    → (t' : Tracker) × (track_deallocation t category bytes ≡ some t')
      × (get_stats t' category ≡ some (record_deallocation s bytes))
unfolding track_deallocation get_stats update_category
track_deallocation-get_stats t category bytes s e =
    let found : get_elem? t.stats category ≡ some s = e in
    (
      record t { stats = set t.stats category (record_deallocation s bytes) },
      rw (found, track_deallocation, update_category) refl,
      get_elem?-set t.stats category s (record_deallocation s bytes) e,
    )
