-- ===== src/Memory/Tests.antt =====
-- Runs of the allocators and of the tracker.
use tge_core.Prelude.{
  ℕ, ◌+◌, ◌-◌, ◌%◌, ◌≤◌, ◌<◌, ◌≡◌, refl, ◌⊎◌, List, [], ◌∷◌, none, some, arith, Mem,
}
use mathlib.Core.List.{Nodup}
use tge_core.Prelude.Words.{u64_mod, align_up}
use tge_core.Memory.Tracking.{Tracker, no_stats, current_usage_of}
use tge_core.Memory.Tracking.History.{Event, allocates, deallocates, record_all, record_all_lem}
use tge_core.Memory.Counters.{no_counts}
use tge_core.Memory.Linear
use tge_core.Memory.Linear.{LinearAllocator}
use tge_core.Memory.Linear.Blocks.{AreStacked, blocks, Request, blocks-AreStacked}
use tge_core.Memory.Linear.Overflow.{allocate_wraps}
use tge_core.Memory.Stack
use tge_core.Memory.Stack.{StackAllocator, AllocationHeader, header_size}
use tge_core.Memory.Stack.Lifo.{IsValid, allocate_lem, deallocate-allocate}
use tge_core.Memory.Pool
use tge_core.Memory.Pool.{PoolAllocator, node_size, get_available_objects, create}
use tge_core.Memory.Pool.Reuse.{here, next, allocates, IsObject, reuse, Shared}

abbrev history : List Event
history = allocates 64 ∷ allocates 32 ∷ deallocates 64 ∷ allocates 16 ∷ []

record_all_lem_example :
    ((record_all no_stats history).allocated ≡ 112)
    × ((record_all no_stats history).deallocated ≡ 64)
    × (current_usage_of (record_all no_stats history) ≡ 48)
    × ((record_all no_stats history).peak_usage ≡ 96)
record_all_lem_example = record_all_lem history (omega arith) (omega arith, tt)

-- Two categories, of which one is registered.
abbrev tracker : Tracker
tracker = record {
  stats =
      record no_stats { allocated = 100; deallocated = 40 }
      ∷ record no_stats { allocated = 7 }
      ∷ [];
  names = 11 ∷ 12 ∷ [];
  num_categories = 1;
}

abbrev tracked : Tracker
tracked = record tracker {
  stats =
      record no_stats { allocated = 128; deallocated = 40; peak_usage = 88; allocation_count = 1 }
      ∷ record no_stats { allocated = 7 }
      ∷ [];
}

abbrev linear : LinearAllocator
linear = record { buffer = some 4096; capacity = 256; offset = 10; counters = no_counts }

abbrev requests : List Request
requests = record { size = 100; alignment = 16 } ∷ record { size = 50; alignment = 8 } ∷ []

blocks-AreStacked_example : AreStacked 4106 4352 (blocks linear tracker requests)
blocks-AreStacked_example =
    blocks-AreStacked requests linear tracker 4096
      (record { has_buffer = refl; in_space = omega arith; in_buffer = omega arith })
      (((4, omega arith, refl), omega arith), (((3, omega arith, refl), omega arith), tt))

allocate_wraps_example :
    ((Linear.allocate linear tracker (u64_mod - 4) 1).pointer ≡ some 4106)
    × ((Linear.allocate linear tracker (u64_mod - 4) 1).allocator.offset ≡ 6)
    × ((Linear.allocate
          (Linear.allocate linear tracker (u64_mod - 4) 1).allocator
          tracker
          3
          1).pointer
        ≡ some 4102)
    × (4102 < 4106)
allocate_wraps_example =
    allocate_wraps linear tracker tracker 4096 (u64_mod - 4) 3
      (record { has_buffer = refl; in_space = omega arith; in_buffer = omega arith }) (omega arith)
      (omega arith) (omega arith) (omega arith) (omega arith)

abbrev stack : StackAllocator
stack = record {
  buffer = some 4096;
  capacity = 256;
  offset = 0;
  last_allocation = none;
  memory = λ _. record { size = 0; padding = 0 };
  counters = no_counts;
}

stack-IsValid : IsValid stack 4096
stack-IsValid = record { has_buffer = refl; in_space = omega arith; in_buffer = omega arith }

allocate_lem_example :
    ((pointer : ℕ) × ((Stack.allocate stack 100 16).1 ≡ some pointer)
      × (0 < 100)
      × (pointer % 16 ≡ 0)
      × (4112 ≤ pointer)
      × (pointer + 100 ≡ 4096 + (Stack.allocate stack 100 16).0.offset)
      × IsValid (Stack.allocate stack 100 16).0 4096)
    ⊎ ((Stack.allocate stack 100 16 ≡ (stack, none))
        × ((◌≡◌ {A = ℕ} 100 0) ⊎ (4352 < align_up 4112 16 + 100)))
allocate_lem_example =
    allocate_lem stack 4096 100 16 stack-IsValid (4, omega arith, refl) (omega arith)

deallocate-allocate_example :
    ((Stack.deallocate (Stack.allocate stack 100 16).0 (some 4112)).offset ≡ 0)
    × ((Stack.deallocate (Stack.allocate stack 100 16).0 (some 4112)).counters.current_usage ≡ 0)
unfolding Stack.allocate align_up
deallocate-allocate_example =
    deallocate-allocate stack 4096 100 16 4112 stack-IsValid (4, omega arith, refl) (omega arith)
      (omega arith) refl

abbrev stack_of_two : StackAllocator
stack_of_two = record stack { offset = 232; last_allocation = some 4228 }

-- A pool of three objects of 24 bytes.
abbrev pool : PoolAllocator
pool = create (λ _. some 4096) (λ _. none) 24 3

abbrev after_one : Shared
after_one = record { pool = (Pool.allocate pool 20 8).0; held = 4096 ∷ [] }

reuse_example :
    Nodup after_one.held
    × ((p : ℕ) → Mem p after_one.held → ∥ IsObject 4096 24 3 p ∥₁)
    × ((n : ℕ) × (get_available_objects after_one.pool ≡ some n) × (n + 1 ≡ 3))
unfolding create Pool.allocate
reuse_example =
    reuse (λ _. some 4096) (λ _. none) 24 3 4096 after_one (omega arith) (omega arith) refl
      (next here (allocates (record { pool = pool; held = [] }) 20 8 4096 refl))
