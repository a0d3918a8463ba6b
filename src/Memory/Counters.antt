-- ===== src/Memory/Counters.antt =====
-- public/tge/memory/tracked_allocator.hpp: the atomic counters of an allocator.
use tge_core.Prelude.{ℕ}
use tge_core.Prelude.Words.{add64, sub64}

pub record Counters : Type 0 where
  pub total_allocated : ℕ
  pub current_usage : ℕ
  pub num_allocations : ℕ
  pub num_deallocations : ℕ

abbrev pub no_counts : Counters
no_counts = record {
  total_allocated = 0;
  current_usage = 0;
  num_allocations = 0;
  num_deallocations = 0;
}

unfoldable pub record_alloc : Counters → ℕ → Counters
record_alloc c bytes = record c {
  total_allocated = add64 c.total_allocated bytes;
  current_usage = add64 c.current_usage bytes;
  num_allocations = add64 c.num_allocations 1;
}

unfoldable pub record_dealloc : Counters → ℕ → Counters
record_dealloc c bytes = record c {
  current_usage = sub64 c.current_usage bytes;
  num_deallocations = add64 c.num_deallocations 1;
}
