-- ===== src/Memory/Stack/Lifo.antt =====
-- Taking back the last block, and what happens to the blocks below it.
use tge_core.Prelude.{ℕ, ◌+◌, ◌%◌, ◌≤◌, ◌<◌, ◌≡◌, ◌≢◌, ◌⊎◌, Option, none, some, arith}
use tge_core.Prelude.Words.{u64_mod, align_up}
use tge_core.Prelude.Words.Align.{IsAlignment, align_up_bounds}
use tge_core.Memory.Counters.{record_alloc, record_dealloc}
use tge_core.Memory.Stack.{StackAllocator, header_size, allocate, deallocate}

-- The buffer lies in the address space, and the offset in the buffer.
pub record IsValid (a : StackAllocator) (buffer : ℕ) : Type 0 where
  pub has_buffer : a.buffer ≡ some buffer
  pub in_space : buffer + a.capacity + header_size < u64_mod
  pub in_buffer : a.offset ≤ a.capacity

abbrev pub Fits : StackAllocator → ℕ → ℕ → ℕ → Type 0
Fits a buffer size alignment = buffer + a.capacity + header_size + alignment + size ≤ u64_mod

-- In a valid buffer, for an alignment that is a power of two, and for a request so small that no
-- sum of the code wraps: a block is granted only for a request that is not empty, is aligned and
-- lies, with its header, between the old and the new end of the used part, which stays in the
-- buffer. A request is refused, with no effect, exactly if it is empty or does not fit.
pub allocate_lem :
    (a : StackAllocator) (buffer size alignment : ℕ)
    → IsValid a buffer
    → IsAlignment alignment
    → Fits a buffer size alignment
    → ((pointer : ℕ) × ((allocate a size alignment).1 ≡ some pointer)
        × (0 < size)
        × (pointer % alignment ≡ 0)
        × (buffer + a.offset + header_size ≤ pointer)
        × (pointer + size ≡ buffer + (allocate a size alignment).0.offset)
        × IsValid (allocate a size alignment).0 buffer)
      ⊎ ((allocate a size alignment ≡ (a, none))
          × ((size ≡ 0)
              ⊎ (buffer + a.capacity
                  < align_up (buffer + a.offset + header_size) alignment + size)))
unfolding allocate
allocate_lem a buffer size alignment v al fits =
    ground
      (arith, align_up_bounds (buffer + a.offset + header_size) alignment al (omega (arith, v)))

-- Taking back the block just granted restores the offset and the usage, in a valid buffer, for an
-- alignment that is a power of two and a request so small that no sum of the code wraps.
pub deallocate-allocate :
    (a : StackAllocator) (buffer size alignment pointer : ℕ)
    → IsValid a buffer
    → IsAlignment alignment
    → Fits a buffer size alignment
    → a.counters.current_usage < u64_mod
    → (allocate a size alignment).1 ≡ some pointer
    → ((deallocate (allocate a size alignment).0 (some pointer)).offset ≡ a.offset)
      × ((deallocate (allocate a size alignment).0 (some pointer)).counters.current_usage
          ≡ a.counters.current_usage)
unfolding allocate deallocate record_alloc record_dealloc
deallocate-allocate a buffer size alignment pointer v al fits word e =
    ground
      (arith, align_up_bounds (buffer + a.offset + header_size) alignment al (omega (arith, v)))

-- After a block is taken back, no other can be until a new one is granted: the allocator forgets
-- which block was granted before the last, so the one below it stays in use.
pub deallocate-deallocate :
    (a : StackAllocator) (p q : Option ℕ)
    → p ≢ none
    → p ≡ a.last_allocation
    → deallocate (deallocate a p) q ≡ deallocate a p
unfolding deallocate
deallocate-deallocate a p q some' e = ground arith
