-- ===== src/Memory/FreeList.antt =====
-- private/memory/free_list_allocator.cpp: a first-fit allocator. `free_list` is the chain that
-- starts at `m_freeList`, with the sizes in its blocks. `memory` holds the words of the headers;
-- what a word becomes that a later write covers in part is the parameter `torn`.
pub mod Chain
pub mod Blocks
pub mod Grants
pub mod Held
pub mod Usage
pub mod Regions
pub mod Places
pub mod History
mod Tests
use tge_core.Prelude.{
  ℕ, ◌+◌, ◌-◌, ltb, leb, ◌==◌, Bool, true, false, ◌&&◌, List, [], ◌∷◌, Option, none, some,
  if◌then◌else◌,
}
use tge_core.Prelude.Words.{add64, sub64, align_up}
use tge_core.Memory.Counters.{Counters, no_counts, record_alloc, record_dealloc}

pub record FreeBlock : Type 0 where
  pub address : ℕ
  pub size : ℕ

-- `sizeof(SAllocationHeader)`, two words: the size and the padding.
abbrev pub header_size : ℕ
header_size = 16

-- `sizeof(SFreeBlock)`
abbrev pub free_block_size : ℕ
free_block_size = 16

pub record FreeListAllocator : Type 0 where
  pub buffer : Option ℕ
  pub capacity : ℕ
  pub free_list : List FreeBlock
  pub memory : ℕ → ℕ
  pub counters : Counters

pub create : (ℕ → Option ℕ) → (ℕ → ℕ) → ℕ → FreeListAllocator
create malloc memory capacity =
    let buffer = if ltb 0 capacity then malloc capacity else none in
    record {
      buffer = buffer;
      capacity = capacity;
      free_list = elim buffer [
        | none ↦ []
        | some address ↦ record { address = address; size = capacity } ∷ []
      ];
      memory = memory;
      counters = no_counts;
    }

-- What the search of `Allocate` finds: the address for the client, the padding before its header,
-- and the free blocks that are left.
pub record Fit : Type 0 where
  pub aligned : ℕ
  pub padding : ℕ
  pub rest : List FreeBlock

abbrev pub data_address : FreeBlock → ℕ
data_address b = add64 b.address header_size

abbrev pub padding_of : FreeBlock → ℕ → ℕ
padding_of b alignment = sub64 (align_up (data_address b) alignment) (data_address b)

abbrev pub total_size : FreeBlock → ℕ → ℕ → ℕ
total_size b size alignment = add64 (add64 header_size (padding_of b alignment)) size

-- What is left of a block that fits: it is split if more than a free block's own fields remain.
pub split : FreeBlock → List FreeBlock → ℕ → List FreeBlock
split b bs total =
    if ltb free_block_size (b.size - total)
    then record { address = add64 b.address total; size = b.size - total } ∷ bs
    else bs

-- The loop over the free blocks.
pub first_fit : List FreeBlock → ℕ → ℕ → Option Fit
unfolding split
first_fit [] size alignment = none
first_fit (b ∷ bs) size alignment =
    if leb (total_size b size alignment) b.size
    then some (record {
      aligned = align_up (data_address b) alignment;
      padding = padding_of b alignment;
      rest = split b bs (total_size b size alignment);
    })
    else elim (first_fit bs size alignment) [
      | none ↦ none
      | some f ↦ some (record f { rest = b ∷ f.rest })
    ]

-- The blocks with a new one, before the first that is not below it.
pub insert_block : FreeBlock → List FreeBlock → List FreeBlock
insert_block new [] = new ∷ []
insert_block new (b ∷ bs) =
    let rest = insert_block new bs in if ltb b.address new.address then b ∷ rest else new ∷ b ∷ bs

-- `CoalesceFreeBlocks` from `currentBlock` on.
pub coalesce_from : FreeBlock → List FreeBlock → List FreeBlock
coalesce_from b [] = b ∷ []
coalesce_from b (next ∷ bs) =
    if add64 b.address b.size == next.address
    then coalesce_from (record b { size = add64 b.size next.size }) bs
    else b ∷ coalesce_from next bs

pub coalesce_free_blocks : List FreeBlock → List FreeBlock
unfolding coalesce_from
coalesce_free_blocks [] = []
coalesce_free_blocks (b ∷ bs) = coalesce_from b bs

module _ (torn : (ℕ → ℕ) → ℕ → ℕ → ℕ → ℕ) where
  -- The memory after `*address = value`, for a value of eight bytes.
  pub write_word : (ℕ → ℕ) → ℕ → ℕ → ℕ → ℕ
  write_word memory address value other =
      if other == address
      then value
      else if ltb other (address + 8) && ltb address (other + 8)
      then torn memory address value other
      else memory other

  pub allocate : FreeListAllocator → ℕ → ℕ → FreeListAllocator × Option ℕ
  unfolding first_fit write_word
  allocate a size alignment =
      if ltb 0 size
      then elim (first_fit a.free_list size alignment) [
        | none ↦ (a, none)
        | some f ↦ (
          record a {
            free_list = f.rest;
            memory =
                write_word (write_word a.memory (sub64 f.aligned header_size) size)
                  (add64 (sub64 f.aligned header_size) 8) f.padding;
            counters = record_alloc a.counters size;
          },
          some f.aligned,
        )
      ]
      else (a, none)

  -- The block that stands behind a new one.
  pub next_address : FreeBlock → List FreeBlock → ℕ
  next_address new [] = 0
  next_address new (b ∷ bs) =
      let rest = next_address new bs in if ltb b.address new.address then rest else b.address

  -- `Deallocate`. The new block's two fields are written before the size in the header is read for
  -- the counters.
  pub deallocate : FreeListAllocator → Option ℕ → FreeListAllocator
  unfolding write_word insert_block next_address coalesce_free_blocks
  deallocate a pointer = elim pointer [
    | none ↦ a
    | some address ↦ elim a.buffer [
      | none ↦ a
      | some buffer ↦
          let header = sub64 address header_size in
          let size = a.memory header in
          let padding = a.memory (add64 header 8) in
          let total = add64 (add64 header_size padding) size in
          let new : FreeBlock = record { address = sub64 header padding; size = total } in
          let cleared =
            write_word (write_word a.memory new.address total) (add64 new.address 8) 0 in
          let linked = write_word cleared (add64 new.address 8) (next_address new a.free_list) in
          record a {
            free_list = coalesce_free_blocks (insert_block new a.free_list);
            memory = linked;
            counters = record_dealloc a.counters (linked header);
          }
    ]
  ]
