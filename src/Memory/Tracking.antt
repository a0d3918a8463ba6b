-- ===== src/Memory/Tracking.antt =====
-- private/memory/tracking.cpp and public/tge/memory/tracking.hpp: statistics by category.
-- Each function runs under one lock, so it is one step. A name is the number of its text.
-- `none` is an index out of the array of 256 categories, which the code does not define.
pub mod History
pub mod Totals
pub mod Entries
use tge_core.Prelude.{
  ℕ, suc, ◌+◌, ◌%◌, ◌<◌, Bool, List, [], ◌∷◌, Option, none, some, length, get_elem?, set, replicate,
  ltb, if◌then◌else◌,
}
use tge_core.Prelude.Words.{u16_mod, u32_mod, add64, sub64}

abbrev pub max_categories : ℕ
max_categories = 256

abbrev pub global_category : ℕ
global_category = 0

abbrev pub other_category : ℕ
other_category = 1

abbrev pub built_in_count : ℕ
built_in_count = 2

pub record Stats : Type 0 where
  pub allocated : ℕ
  pub deallocated : ℕ
  pub peak_usage : ℕ
  pub allocation_count : ℕ
  pub deallocation_count : ℕ

abbrev pub no_stats : Stats
no_stats = record {
  allocated = 0;
  deallocated = 0;
  peak_usage = 0;
  allocation_count = 0;
  deallocation_count = 0;
}

-- `SStats::GetCurrentUsage`
abbrev pub current_usage_of : Stats → ℕ
current_usage_of s = sub64 s.allocated s.deallocated

pub record Tracker : Type 0 where
  pub stats : List Stats
  pub names : List ℕ
  pub num_categories : ℕ

-- The state at the start of the program.
pub initial_tracker : ℕ → ℕ → Tracker
initial_tracker global_name other_name = record {
  stats = replicate max_categories no_stats;
  names = global_name ∷ other_name ∷ replicate 254 0;
  num_categories = built_in_count;
}

-- `none` where the assertion fails.
pub register_category : Tracker → ℕ → Option (Tracker × ℕ)
register_category t name =
    if ltb t.num_categories max_categories
    then some (
      record t { names = set t.names t.num_categories name; num_categories = t.num_categories + 1 },
      t.num_categories % u16_mod,
    )
    else none

-- What one allocation does to the statistics of its category.
unfoldable pub record_allocation : Stats → ℕ → Stats
record_allocation s bytes =
    let grown = record s {
      allocated = add64 s.allocated bytes;
      allocation_count = (s.allocation_count + 1) % u32_mod;
    } in
    let current_usage = current_usage_of grown in
    if ltb grown.peak_usage current_usage
    then record grown { peak_usage = current_usage }
    else grown

unfoldable pub record_deallocation : Stats → ℕ → Stats
record_deallocation s bytes = record s {
  deallocated = add64 s.deallocated bytes;
  deallocation_count = (s.deallocation_count + 1) % u32_mod;
}

update_category : Tracker → ℕ → (Stats → Stats) → Option Tracker
update_category t category f = elim (get_elem? t.stats category) [
  | none ↦ none
  | some s ↦ some (record t { stats = set t.stats category (f s) })
]

unfoldable pub track_allocation : Tracker → ℕ → ℕ → Option Tracker
unfolding update_category record_allocation
track_allocation t category bytes = update_category t category (λ s. record_allocation s bytes)

unfoldable pub track_deallocation : Tracker → ℕ → ℕ → Option Tracker
unfolding update_category record_deallocation
track_deallocation t category bytes = update_category t category (λ s. record_deallocation s bytes)

unfoldable pub get_stats : Tracker → ℕ → Option Stats
get_stats t category = get_elem? t.stats category

pub get_category_name : Tracker → ℕ → Option ℕ
get_category_name t category = get_elem? t.names category

-- `for (i = 0; i < gNumCategories; ++i) total += f(gCategoryStats[i])`, with `rounds` left.
sum_from : (Stats → ℕ) → List Stats → ℕ → ℕ → ℕ
sum_from f [] rounds total = total
sum_from f (s ∷ ss) ℕ.zero total = total
sum_from f (s ∷ ss) (suc rounds) total = sum_from f ss rounds (add64 total (f s))

pub get_total_allocated : Tracker → ℕ
unfolding sum_from
get_total_allocated t = sum_from (λ s. s.allocated) t.stats t.num_categories 0

pub get_total_deallocated : Tracker → ℕ
unfolding sum_from
get_total_deallocated t = sum_from (λ s. s.deallocated) t.stats t.num_categories 0

pub get_current_usage : Tracker → ℕ
unfolding sum_from
get_current_usage t = sum_from current_usage_of t.stats t.num_categories 0

pub get_num_allocations : Tracker → ℕ
unfolding sum_from
get_num_allocations t = sum_from (λ s. s.allocation_count) t.stats t.num_categories 0

pub reset : Tracker → Tracker
reset t = record t { stats = replicate max_categories no_stats }
