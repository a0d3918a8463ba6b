-- ===== src/Memory/Linear.antt =====
-- private/memory/linear_allocator.cpp: a bump allocator, with memory tracking enabled.
pub mod Blocks
pub mod Overflow
use tge_core.Prelude.{
  ℕ, ◌+◌, ltb, leb, Bool, true, false, not, ◌&&◌, Option, none, some, List, [], ◌∷◌, if◌then◌else◌,
}
use tge_core.Prelude.Words.{add64, sub64, align_up}
use tge_core.Memory.Tracking.{Tracker, track_allocation, track_deallocation, other_category}
use tge_core.Memory.Counters.{Counters, no_counts, record_alloc}

pub record LinearAllocator : Type 0 where
  pub buffer : Option ℕ
  pub capacity : ℕ
  pub offset : ℕ
  pub counters : Counters

-- The constructor.
pub create : (ℕ → Option ℕ) → ℕ → LinearAllocator
create malloc capacity = record {
  buffer = if ltb 0 capacity then malloc capacity else none;
  capacity = capacity;
  offset = 0;
  counters = no_counts;
}

-- A call's new state, with the global tracker, and its result.
pub record Allocated : Type 0 where
  pub allocator : LinearAllocator
  pub tracker : Option Tracker
  pub pointer : Option ℕ

abbrev refuse : LinearAllocator → Tracker → Allocated
refuse a t = record { allocator = a; tracker = some t; pointer = none }

pub allocate : LinearAllocator → Tracker → ℕ → ℕ → Allocated
allocate a t size alignment = elim a.buffer [
  | none ↦ refuse a t
  | some buffer ↦
      let current = add64 buffer a.offset in
      let aligned = align_up current alignment in
      let total_size = add64 (sub64 aligned current) size in
      if ltb 0 size && leb (add64 a.offset total_size) a.capacity
      then record {
        allocator = record a {
          offset = add64 a.offset total_size;
          counters = record_alloc a.counters size;
        };
        tracker = track_allocation t other_category size;
        pointer = some aligned;
      }
      else refuse a t
]

pub deallocate : LinearAllocator → Option ℕ → LinearAllocator
deallocate a pointer = a

pub reset : LinearAllocator → Tracker → LinearAllocator × Option Tracker
reset a t = (
  record a { offset = 0; counters = record a.counters { current_usage = 0 } },
  if ltb 0 a.counters.current_usage
      then track_deallocation t other_category a.counters.current_usage
      else some t,
)
