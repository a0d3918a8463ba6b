-- ===== src/Memory/Linear/Blocks.antt =====
-- Where the blocks of a linear allocator lie.
use tge_core.Prelude.{
  ℕ, ◌+◌, ◌%◌, ◌≤◌, ◌<◌, ◌≡◌, refl, ◌⊎◌, inl, inr, Option, none, some, List, [], ◌∷◌, arith,
  Option-cases, All,
}
use tge_core.Prelude.Words.{u64_mod, align_up}
use tge_core.Prelude.Words.Align.{IsAlignment, align_up_bounds}
use tge_core.Memory.Tracking.{Tracker}
use tge_core.Memory.Linear.{LinearAllocator, Allocated, allocate}

-- The buffer lies in the address space, and the offset in the buffer.
pub record IsValid (a : LinearAllocator) (buffer : ℕ) : Type 0 where
  pub has_buffer : a.buffer ≡ some buffer
  pub in_space : buffer + a.capacity < u64_mod
  pub in_buffer : a.offset ≤ a.capacity

-- The request does not wrap the address arithmetic of a buffer with this end.
abbrev pub Fits : ℕ → ℕ → ℕ → Type 0
Fits end size alignment = end + alignment + size ≤ u64_mod

-- What a call promises: an aligned block between the old and the new end of the used part, or
-- nothing at all where the request is empty or does not fit.
abbrev pub Grants : LinearAllocator → ℕ → ℕ → ℕ → Allocated → Type 0
Grants a buffer size alignment r =
    ((pointer : ℕ) × (r.pointer ≡ some pointer)
      × (pointer % alignment ≡ 0)
      × (buffer + a.offset ≤ pointer)
      × (pointer + size ≡ buffer + r.allocator.offset)
      × (r.allocator.offset ≤ a.capacity))
    ⊎ ((r.pointer ≡ none)
        × (r.allocator ≡ a)
        × ((size ≡ 0) ⊎ (buffer + a.capacity < align_up (buffer + a.offset) alignment + size)))

allocate-Grants :
    (a : LinearAllocator) (t : Tracker) (buffer size alignment : ℕ)
    → IsValid a buffer
    → IsAlignment alignment
    → Fits (buffer + a.capacity) size alignment
    → Grants a buffer size alignment (allocate a t size alignment)
unfolding allocate
allocate-Grants a t buffer size alignment v al fits =
    ground (arith, align_up_bounds (buffer + a.offset) alignment al (omega (arith, v)))

pub record Request : Type 0 where
  pub size : ℕ
  pub alignment : ℕ

pub record Block : Type 0 where
  pub start : ℕ
  pub size : ℕ

abbrev granted : Request → Option ℕ → List Block → List Block
granted r none rest = rest
granted r (some pointer) rest = record { start = pointer; size = r.size } ∷ rest

-- The blocks that a sequence of requests is granted, up to a fault of the tracker.
pub blocks : LinearAllocator → Tracker → List Request → List Block
unfolding allocate
blocks a t [] = []
blocks a t (r ∷ rs) =
    let x = allocate a t r.size r.alignment in
    elim x.tracker [
      | none ↦ granted r x.pointer []
      | some t' ↦ granted r x.pointer (blocks x.allocator t' rs)
    ]

-- Blocks that follow one another between two addresses, so no two of them overlap.
abbrev pub AreStacked : ℕ → ℕ → List Block → Type 0
AreStacked low high [] = low ≤ high
AreStacked low high (b ∷ bs) = (low ≤ b.start) × AreStacked (b.start + b.size) high bs

abbrev pub AreSane : ℕ → List Request → Type 0
AreSane end = All (λ r. IsAlignment r.alignment × Fits end r.size r.alignment)

Grants-IsValid :
    (a : LinearAllocator) (buffer size alignment : ℕ) (r : Allocated)
    → IsValid a buffer
    → r.allocator.buffer ≡ a.buffer
    → r.allocator.capacity ≡ a.capacity
    → Grants a buffer size alignment r
    → IsValid r.allocator buffer × (a.offset ≤ r.allocator.offset)
Grants-IsValid a buffer size alignment r v b c g = ground arith

allocate_keeps :
    (a : LinearAllocator) (t : Tracker) (size alignment : ℕ)
    → ((allocate a t size alignment).allocator.buffer ≡ a.buffer)
      × ((allocate a t size alignment).allocator.capacity ≡ a.capacity)
unfolding allocate
allocate_keeps a t size alignment = ground arith

AreStacked-lower :
    (low low' high : ℕ) (bs : List Block)
    → low ≤ low'
    → AreStacked low' high bs
    → AreStacked low high bs
AreStacked-lower low low' high [] le h = omega arith
AreStacked-lower low low' high (b ∷ bs) le h = (omega arith, h.1)

granted-AreStacked :
    (a : LinearAllocator) (buffer end : ℕ) (r : Request) (x : Allocated) (rest : List Block)
    → Grants a buffer r.size r.alignment x
    → AreStacked (buffer + x.allocator.offset) end rest
    → AreStacked (buffer + a.offset) end (granted r x.pointer rest)
granted-AreStacked a buffer end r x rest (inl (p, e, al, low, high, top)) h = rw e (low, rw high h)
granted-AreStacked a buffer end r x rest (inr (e, same, _)) h = rw (e, ← same) h

blocks-below :
    (rs : List Request) (a : LinearAllocator) (t : Tracker) (buffer end : ℕ)
    → IsValid a buffer
    → buffer + a.capacity ≡ end
    → AreSane end rs
    → AreStacked (buffer + a.offset) end (blocks a t rs)
unfolding blocks
blocks-below [] a t buffer end v e sane = omega (arith, v)
blocks-below (r ∷ rs) a t buffer end v e sane =
    let x = allocate a t r.size r.alignment in
    let g = allocate-Grants a t buffer r.size r.alignment v sane.0.0 (rw e sane.0.1) in
    let (same, size) = allocate_keeps a t r.size r.alignment in
    let (v', _) = Grants-IsValid a buffer r.size r.alignment x v same size g in
    elim (Option-cases x.tracker) [
      | inl none' ↦
          rw (none', blocks) (granted-AreStacked a buffer end r x [] g (omega (arith, v')))
      | inr (t', some') ↦
          rw (some', blocks)
            (granted-AreStacked a buffer end r x (blocks x.allocator t' rs) g
              (blocks-below rs x.allocator t' buffer end v' (omega arith) sane.1))
    ]

-- The blocks granted to any sequence of requests lie in the buffer, behind what was in use, each
-- behind the one before. The buffer lies in the address space, the alignments are powers of two,
-- and no request is so large that the address arithmetic wraps.
pub blocks-AreStacked :
    (rs : List Request) (a : LinearAllocator) (t : Tracker) (buffer : ℕ)
    → IsValid a buffer
    → AreSane (buffer + a.capacity) rs
    → AreStacked (buffer + a.offset) (buffer + a.capacity) (blocks a t rs)
blocks-AreStacked rs a t buffer v sane =
    blocks-below rs a t buffer (buffer + a.capacity) v refl sane
