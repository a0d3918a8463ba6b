-- ===== src/Memory/FreeList/Tests.antt =====
-- A free-list allocator of 256 bytes at 4096, from which 100 and 24 bytes are taken.
use tge_core.Prelude.{List, ℕ, ◌+◌, ◌-◌, ◌≤◌, ◌<◌, ◌≡◌, ◌⊎◌, refl, [], ◌∷◌, none, some, All, arith}
use tge_core.Prelude.Words.{u64_mod, sub64, align_up}
use tge_core.Prelude.Words.Align.{IsAlignment}
use tge_core.Memory.Counters.{no_counts}
use tge_core.Memory.FreeList.{
  create, FreeListAllocator, FreeBlock, Fit, allocate, deallocate, header_size, free_block_size,
}
use tge_core.Memory.FreeList.Chain.{Ordered, Apart, free_bytes}
use tge_core.Memory.FreeList.Blocks.{IsTooSmall, IsPlace}
use tge_core.Memory.FreeList.Places.{Place, held_with, AreApart}
use tge_core.Memory.FreeList.History.{Runs, made, requests, IsWithin, Runs-AreApart}
use tge_core.Memory.FreeList.Grants.{allocate-free_list}
use tge_core.Memory.FreeList.Usage.{deallocate-free_list, deallocate-counters}

-- A word that is written in part stays as it was.
abbrev torn : (ℕ → ℕ) → ℕ → ℕ → ℕ → ℕ
torn memory address value other = memory other

abbrev block : ℕ → ℕ → FreeBlock
block address size = record { address = address; size = size }

abbrev two_blocks : FreeListAllocator
two_blocks = record {
  buffer = some 4096;
  capacity = 256;
  free_list = block 4096 32 ∷ block 4200 152 ∷ [];
  memory = λ _. 0;
  counters = no_counts;
}

is_alignment : IsAlignment 8
is_alignment = (3, omega arith, refl)

positive : 0 < 100
positive = omega arith

room : 4352 + header_size + 8 + 100 < u64_mod
room = omega arith

two_blocks-Ordered : Ordered 4096 4352 two_blocks.free_list
two_blocks-Ordered = (omega arith, omega arith, (omega arith, omega arith, omega arith))

allocate-free_list_example :
    ((allocate torn two_blocks 100 8 ≡ (two_blocks, none))
      × All (IsTooSmall 100 8 4352 positive is_alignment room) two_blocks.free_list)
    ⊎ ((f : Fit) × ((allocate torn two_blocks 100 8).1 ≡ some f.aligned)
        × ((allocate torn two_blocks 100 8).0.free_list ≡ f.rest)
        × IsPlace 100 8 4352 positive is_alignment room 4096 two_blocks.free_list f
        × ((allocate torn two_blocks 100 8).0.memory (f.aligned - header_size) ≡ 100)
        × ((allocate torn two_blocks 100 8).0.memory (f.aligned - 8) ≡ f.padding))
allocate-free_list_example =
    allocate-free_list torn two_blocks 100 8 4096 4352 positive is_alignment room two_blocks-Ordered

granted_pointer : (allocate torn two_blocks 100 8).1 ≡ some 4216
unfolding allocate align_up
granted_pointer = refl

deallocate-free_list_example :
    Ordered 4096 4352 (deallocate torn (allocate torn two_blocks 100 8).0 (some 4216)).free_list
    × Apart (deallocate torn (allocate torn two_blocks 100 8).0 (some 4216)).free_list
    × ((lost : ℕ) × (lost ≤ free_block_size)
        × (free_bytes two_blocks.free_list
            ≡ free_bytes (deallocate torn (allocate torn two_blocks 100 8).0 (some 4216)).free_list
              + lost))
deallocate-free_list_example =
    deallocate-free_list torn two_blocks 100 8 4096 4352 positive is_alignment room 4096 4216 refl
      two_blocks-Ordered granted_pointer

deallocate-counters_example :
    (((allocate torn two_blocks 100 8).0.memory 4208 ≡ 0)
      × ((deallocate torn (allocate torn two_blocks 100 8).0 (some 4216)).counters.current_usage
          ≡ sub64 0 16))
    ⊎ (((16 ≤ (allocate torn two_blocks 100 8).0.memory 4208)
          × ((deallocate torn (allocate torn two_blocks 100 8).0 (some 4216)).counters.current_usage
              ≡ 0))
        ⊎ ((0 < (allocate torn two_blocks 100 8).0.memory 4208)
            × ((allocate torn two_blocks 100 8).0.memory 4208 < 16)))
deallocate-counters_example =
    deallocate-counters torn two_blocks 100 8 4096 4352 positive is_alignment room 4096 4216 refl
      two_blocks-Ordered (omega arith) granted_pointer

abbrev at_start : FreeListAllocator
at_start = create (λ _. some 4096) (λ _. 0) 256

abbrev taken_once : FreeListAllocator
taken_once = (allocate torn at_start 100 8).0

abbrev taken_twice : FreeListAllocator
taken_twice = (allocate torn taken_once 24 8).0

abbrev in_hand : List Place
in_hand =
    held_with taken_twice 24 (allocate torn taken_once 24 8).1
      (held_with taken_once 100 (allocate torn at_start 100 8).1 [])

in_space : 4352 < u64_mod
in_space = omega arith

two_requests : Runs torn 4096 4352 in_space taken_twice in_hand
two_requests =
    requests 24 8 (requests 100 8 (made (λ _. 0) (omega arith)) positive is_alignment room)
      (omega arith) is_alignment (omega arith)

Runs-AreApart_example :
    AreApart in_hand
    × All (IsWithin torn 4096 4352 in_space taken_twice) in_hand
    × Ordered 4096 4352 taken_twice.free_list
Runs-AreApart_example = Runs-AreApart torn 4096 4352 in_space taken_twice in_hand two_requests
