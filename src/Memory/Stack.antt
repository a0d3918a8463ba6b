-- ===== src/Memory/Stack.antt =====
-- private/memory/stack_allocator.cpp: a bump allocator that can take the last block back.
-- `memory` holds the allocation headers by their addresses; what stands there before the first
-- write is arbitrary.
pub mod Lifo
use tge_core.Prelude.{
  ℕ, ◌+◌, ltb, leb, Bool, true, false, ◌&&◌, ◌==◌, Option, none, some, if◌then◌else◌,
}
use tge_core.Prelude.Words.{add64, sub64, align_up}
use tge_core.Memory.Counters.{Counters, no_counts, record_alloc, record_dealloc}

pub record AllocationHeader : Type 0 where
  pub size : ℕ
  pub padding : ℕ

abbrev pub header_size : ℕ
header_size = 16

-- `*pHeader = header`
abbrev pub write : (ℕ → AllocationHeader) → ℕ → AllocationHeader → ℕ → AllocationHeader
write memory address header other = if other == address then header else memory other

pub record StackAllocator : Type 0 where
  pub buffer : Option ℕ
  pub capacity : ℕ
  pub offset : ℕ
  pub last_allocation : Option ℕ
  pub memory : ℕ → AllocationHeader
  pub counters : Counters

pub create : (ℕ → Option ℕ) → (ℕ → AllocationHeader) → ℕ → StackAllocator
create malloc memory capacity = record {
  buffer = if ltb 0 capacity then malloc capacity else none;
  capacity = capacity;
  offset = 0;
  last_allocation = none;
  memory = memory;
  counters = no_counts;
}

unfoldable pub allocate : StackAllocator → ℕ → ℕ → StackAllocator × Option ℕ
allocate a size alignment = elim a.buffer [
  | none ↦ (a, none)
  | some buffer ↦
      let data_address = add64 (add64 buffer a.offset) header_size in
      let aligned = align_up data_address alignment in
      let padding = sub64 aligned data_address in
      let total_size = add64 (add64 header_size padding) size in
      if ltb 0 size && leb (add64 a.offset total_size) a.capacity
      then (
        record a {
          offset = add64 a.offset total_size;
          last_allocation = some aligned;
          memory =
              write a.memory (sub64 aligned header_size)
                (record { size = size; padding = padding });
          counters = record_alloc a.counters size;
        },
        some aligned,
      )
      else (a, none)
]

abbrev same_pointer : Option ℕ → Option ℕ → Bool
same_pointer none none = true
same_pointer none (some b) = false
same_pointer (some a) none = false
same_pointer (some a) (some b) = a == b

pub deallocate : StackAllocator → Option ℕ → StackAllocator
deallocate a pointer = elim pointer [
  | none ↦ a
  | some address ↦
      let header = a.memory (sub64 address header_size) in
      let total_size = add64 (add64 header_size header.padding) header.size in
      if same_pointer (some address) a.last_allocation
      then record a {
        offset = sub64 a.offset total_size;
        counters = record_dealloc a.counters header.size;
        last_allocation = none;
      }
      else a
]

pub reset : StackAllocator → StackAllocator
reset a = record a {
  offset = 0;
  last_allocation = none;
  counters = record counters { current_usage = 0 };
}
  where
    open a use {counters}
