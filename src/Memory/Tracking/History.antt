-- ===== src/Memory/Tracking/History.antt =====
-- The statistics of one category after a history of allocations and deallocations.
use Prim.Native.Nat.{max}
use tge_core.Prelude.{ℕ, suc, ◌+◌, ◌-◌, ◌≤◌, ◌<◌, ◌≡◌, refl, List, [], ◌∷◌, arith}
use tge_core.Prelude.Words.{u64_mod}
use tge_core.Memory.Tracking.{
  Stats, no_stats, current_usage_of, record_allocation, record_deallocation,
}

pub data Event : Type 0 where
  allocates deallocates : ℕ → Event

abbrev pub record_event : Stats → Event → Stats
record_event s (allocates bytes) = record_allocation s bytes
record_event s (deallocates bytes) = record_deallocation s bytes

pub record_all : Stats → List Event → Stats
record_all s [] = s
record_all s (e ∷ es) = record_all (record_event s e) es

-- The bytes allocated, and the number of allocations.
abbrev pub bytes_allocated : List Event → ℕ
bytes_allocated [] = 0
bytes_allocated (allocates bytes ∷ es) = bytes + bytes_allocated es
bytes_allocated (deallocates bytes ∷ es) = bytes_allocated es

abbrev pub bytes_deallocated : List Event → ℕ
bytes_deallocated [] = 0
bytes_deallocated (allocates bytes ∷ es) = bytes_deallocated es
bytes_deallocated (deallocates bytes ∷ es) = bytes + bytes_deallocated es

abbrev pub num_allocations : List Event → ℕ
num_allocations [] = 0
num_allocations (allocates bytes ∷ es) = suc (num_allocations es)
num_allocations (deallocates bytes ∷ es) = num_allocations es

-- Nothing is given back that was not in use.
abbrev pub IsBalanced : ℕ → List Event → Type 0
IsBalanced usage [] = Unit {0}
IsBalanced usage (allocates bytes ∷ es) = IsBalanced (usage + bytes) es
IsBalanced usage (deallocates bytes ∷ es) = (bytes ≤ usage) × IsBalanced (usage - bytes) es

-- The highest usage at any point of the history.
abbrev pub highest : ℕ → List Event → ℕ
highest usage [] = usage
highest usage (allocates bytes ∷ es) = max usage (highest (usage + bytes) es)
highest usage (deallocates bytes ∷ es) = max usage (highest (usage - bytes) es)

-- The statistics stand for this usage, below the peak.
record Stands (s : Stats) (usage : ℕ) : Type 0 where
  in_use : s.deallocated + usage ≡ s.allocated
  peak : usage ≤ s.peak_usage

record_allocation-Stands :
    (s : Stats) (bytes usage : ℕ)
    → s.allocated + bytes < u64_mod
    → Stands s usage
    → Stands (record_allocation s bytes) (usage + bytes)
      × ((record_allocation s bytes).peak_usage ≡ max s.peak_usage (usage + bytes))
      × ((record_allocation s bytes).allocated ≡ s.allocated + bytes)
      × ((record_allocation s bytes).deallocated ≡ s.deallocated)
unfolding record_allocation
record_allocation-Stands s bytes usage fits v = ground arith

record_deallocation-Stands :
    (s : Stats) (bytes usage : ℕ)
    → s.allocated < u64_mod
    → bytes ≤ usage
    → Stands s usage
    → Stands (record_deallocation s bytes) (usage - bytes)
      × ((record_deallocation s bytes).peak_usage ≡ s.peak_usage)
      × ((record_deallocation s bytes).allocated ≡ s.allocated)
      × ((record_deallocation s bytes).deallocated ≡ s.deallocated + bytes)
unfolding record_deallocation
record_deallocation-Stands s bytes usage fits le v = ground arith

highest-ge : (usage : ℕ) (es : List Event) → usage ≤ highest usage es
highest-ge usage [] = omega arith
highest-ge usage (allocates bytes ∷ es) = omega arith
highest-ge usage (deallocates bytes ∷ es) = omega arith

-- What the statistics hold after a history.
abbrev pub Summary : Stats → ℕ → List Event → Stats → Type 0
Summary s usage es r =
    (r.allocated ≡ s.allocated + bytes_allocated es)
    × (r.deallocated ≡ s.deallocated + bytes_deallocated es)
    × (r.peak_usage ≡ max s.peak_usage (highest usage es))

record_all-Summary :
    (s : Stats) (usage : ℕ) (es : List Event)
    → s.allocated + bytes_allocated es < u64_mod
    → IsBalanced usage es
    → Stands s usage
    → Summary s usage es (record_all s es)
unfolding record_all
record_all-Summary s usage [] fits b v = omega arith
record_all-Summary s usage (allocates bytes ∷ es) fits b v =
    let step = record_allocation-Stands s bytes usage (omega arith) v in
    let rest =
      record_all-Summary (record_allocation s bytes) (usage + bytes) es (omega arith) b step.0 in
    omega (arith, rest, step, highest-ge (usage + bytes) es)
record_all-Summary s usage (deallocates bytes ∷ es) fits b v =
    let step = record_deallocation-Stands s bytes usage (omega arith) b.0 v in
    let rest =
      record_all-Summary (record_deallocation s bytes) (usage - bytes) es (omega arith) b.1
        step.0 in
    omega (arith, rest, step, highest-ge (usage - bytes) es)

balanced-le :
    (usage : ℕ) (es : List Event)
    → IsBalanced usage es
    → bytes_deallocated es ≤ usage + bytes_allocated es
balanced-le usage [] b = omega arith
balanced-le usage (allocates bytes ∷ es) b = omega (arith, balanced-le (usage + bytes) es b)
balanced-le usage (deallocates bytes ∷ es) b =
    omega (arith, b.0, balanced-le (usage - bytes) es b.1)

-- After a history in which nothing is given back that was not in use, and fewer than 2^64 bytes
-- are allocated, the statistics of a category that started empty hold the bytes allocated and given
-- back, the current usage is their difference, and the peak is the highest usage at any point.
pub record_all_lem :
    (es : List Event)
    → bytes_allocated es < u64_mod
    → IsBalanced 0 es
    → ((record_all no_stats es).allocated ≡ bytes_allocated es)
      × ((record_all no_stats es).deallocated ≡ bytes_deallocated es)
      × (current_usage_of (record_all no_stats es) ≡ bytes_allocated es - bytes_deallocated es)
      × ((record_all no_stats es).peak_usage ≡ highest 0 es)
record_all_lem es fits b =
    let sum =
      record_all-Summary no_stats 0 es (omega arith) b
        (record { in_use = refl; peak = omega arith }) in
    omega (arith, sum, balanced-le 0 es b)
