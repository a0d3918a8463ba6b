-- ===== src/Memory/Pool.antt =====
-- private/memory/pool_allocator.cpp: objects of one size on a free list that is threaded through
-- the free objects. `memory` holds the `next` pointers by the addresses of their nodes; what stands
-- there before the first write is arbitrary.
pub mod Chain
pub mod Reuse
use Prim.Native.Nat.{max}
use tge_core.Prelude.{
  ℕ, zero, suc, ◌+◌, ◌-◌, ltb, leb, ◌==◌, Option, none, some, if◌then◌else◌, Bool, true, false,
}
use tge_core.Prelude.Words.{add64, mul64}
use tge_core.Memory.Counters.{Counters, no_counts, record_alloc, record_dealloc}

pub record PoolAllocator : Type 0 where
  pub buffer : Option ℕ
  pub object_size : ℕ
  pub object_count : ℕ
  pub free_list : Option ℕ
  pub memory : ℕ → Option ℕ
  pub counters : Counters

-- `node->next = next`
abbrev pub write : (ℕ → Option ℕ) → ℕ → Option ℕ → ℕ → Option ℕ
write memory node next other = if other == node then next else memory other

abbrev pub slot : ℕ → ℕ → ℕ → ℕ
slot buffer size i = add64 buffer (mul64 i size)

-- The loop that links the objects, from object `i` on.
unfoldable pub link : ℕ → ℕ → ℕ → ℕ → ℕ → (ℕ → Option ℕ) → ℕ → Option ℕ
link buffer size count zero i memory = memory
link buffer size count (suc rounds) i memory = link buffer size count rounds (i + 1) (
    write memory (slot buffer size i)
      (if ltb i (count - 1) then some (slot buffer size (i + 1)) else none))

-- `sizeof(SFreeNode)`
abbrev pub node_size : ℕ
node_size = 8

unfoldable pub create : (ℕ → Option ℕ) → (ℕ → Option ℕ) → ℕ → ℕ → PoolAllocator
unfolding link
create malloc memory requested_size object_count =
    let size = max requested_size node_size in
    let buffer = if ltb 0 object_count then malloc (mul64 size object_count) else none in
    record {
      buffer = buffer;
      object_size = size;
      object_count = object_count;
      free_list = buffer;
      memory = elim buffer [
        | none ↦ memory
        | some address ↦ link address size object_count object_count 0 memory
      ];
      counters = no_counts;
    }

unfoldable pub allocate : PoolAllocator → ℕ → ℕ → PoolAllocator × Option ℕ
allocate a size alignment = elim a.free_list [
  | none ↦ (a, none)
  | some node ↦
      if leb size a.object_size
      then (
        record a { free_list = a.memory node; counters = record_alloc a.counters a.object_size },
        some node,
      )
      else (a, none)
]

pub deallocate : PoolAllocator → Option ℕ → PoolAllocator
deallocate a pointer = elim pointer [
  | none ↦ a
  | some node ↦ record a {
    memory = write a.memory node a.free_list;
    free_list = some node;
    counters = record_dealloc a.counters a.object_size;
  }
]

-- The walk along the free list; `none` means that the fuel ran out.
pub count_free : ℕ → (ℕ → Option ℕ) → Option ℕ → ℕ → Option ℕ
count_free fuel memory none count = some count
count_free zero memory (some node) count = none
count_free (suc fuel) memory (some node) count = count_free fuel memory (memory node) (count + 1)

-- A pool has `object_count` objects, so the walk ends within as many steps.
pub get_available_objects : PoolAllocator → Option ℕ
unfolding count_free
get_available_objects a = count_free a.object_count a.memory a.free_list 0
