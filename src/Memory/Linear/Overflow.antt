-- ===== src/Memory/Linear/Overflow.antt =====
-- The test against the capacity adds up numbers that can wrap.
use tge_core.Prelude.{ℕ, ◌+◌, ◌-◌, ◌≤◌, ◌<◌, ◌≡◌, refl, ap, ◌∙◌, some, arith}
use tge_core.Prelude.Words.{u64_mod, add64}
use tge_core.Prelude.Words.Align.{align_up_bounds}
use tge_core.Memory.Tracking.{Tracker}
use tge_core.Memory.Linear.{LinearAllocator, allocate}
use tge_core.Memory.Linear.Blocks.{IsValid}

-- What a request that is aligned to 1 returns.
allocate_at_end :
    (a : LinearAllocator) (t : Tracker) (buffer size : ℕ)
    → a.buffer ≡ some buffer
    → buffer + a.capacity < u64_mod
    → a.offset ≤ a.capacity
    → 0 < size
    → add64 a.offset size ≤ a.capacity
    → size < u64_mod
    → ((allocate a t size 1).pointer ≡ some (buffer + a.offset))
      × ((allocate a t size 1).allocator.offset ≡ add64 a.offset size)
      × ((allocate a t size 1).allocator.buffer ≡ some buffer)
      × ((allocate a t size 1).allocator.capacity ≡ a.capacity)
unfolding allocate
allocate_at_end a t buffer size b space within some' fits word =
    ground (arith, align_up_bounds (buffer + a.offset) 1 (0, omega arith, refl) (omega arith))

-- A request for nearly 2^64 bytes, aligned to 1, is granted in a valid buffer as soon as something
-- is in use: it returns a pointer into the buffer and moves the offset back. The next request that
-- is aligned to 1, not empty and fits behind the new offset is granted at it, so its block starts
-- below the end of the bytes that were in use.
pub allocate_wraps :
    (a : LinearAllocator) (t u : Tracker) (buffer size next : ℕ)
    → IsValid a buffer
    → 0 < a.offset
    → u64_mod ≤ a.offset + size
    → size < u64_mod
    → 0 < next
    → a.offset + size - u64_mod + next ≤ a.capacity
    → ((allocate a t size 1).pointer ≡ some (buffer + a.offset))
      × ((allocate a t size 1).allocator.offset ≡ a.offset + size - u64_mod)
      × ((allocate (allocate a t size 1).allocator u next 1).pointer
          ≡ some (buffer + (a.offset + size - u64_mod)))
      × (buffer + (a.offset + size - u64_mod) < buffer + a.offset)
allocate_wraps a t u buffer size next v pos wraps word some' fits =
    let moved : add64 a.offset size ≡ a.offset + size - u64_mod = omega (arith, v) in
    let (granted, off, buf, cap) =
      allocate_at_end a t buffer size v.has_buffer v.in_space v.in_buffer (omega arith)
        (omega (arith, v)) word in
    let b = (allocate a t size 1).allocator in
    let (again, _, _, _) =
      allocate_at_end b u buffer next buf (omega (arith, v)) (omega (arith, v)) some'
        (omega (arith, v)) (omega (arith, v)) in
    (granted, off ∙ moved, again ∙ ap (λ o. some (buffer + o)) (off ∙ moved), omega (arith, v))
