-- ===== src/Memory/FreeList/Grants.antt =====
-- What an allocation grants, and what it writes before it.
use mathlib.Core.Option.{some-injective}
use tge_core.Prelude.{
  sym, Option-cases, Bool-cases, ltb, true, none, ℕ, ◌+◌, ◌-◌, ◌≤◌, ◌<◌, ◌≡◌, ◌⊎◌, inl, inr, refl,
  ◌∙◌, ==_refl, lt→ltb, none, some, All, arith,
}
use tge_core.Prelude.Words.{u64_mod, add64, sub64}
use tge_core.Prelude.Words.Align.{IsAlignment}
use tge_core.Memory.FreeList.{first_fit, FreeListAllocator, Fit, header_size, write_word, allocate}
use tge_core.Memory.FreeList.Chain.{Ordered}
use tge_core.Memory.FreeList.Blocks.{IsTooSmall, IsPlace, first_fit-cases}

module _ (torn : (ℕ → ℕ) → ℕ → ℕ → ℕ → ℕ) where
  pub write_word_same :
      (m : ℕ → ℕ) (address value : ℕ) → write_word torn m address value address ≡ value
  unfolding write_word
  write_word_same m address value = rw (==_refl address) refl

  -- A word that lies beside the one that is written stays.
  pub write_word_beside :
      (m : ℕ → ℕ) (address value other : ℕ)
      → (other + 8 ≤ address) ⊎ (address + 8 ≤ other)
      → write_word torn m address value other ≡ m other
  unfolding write_word
  write_word_beside m address value other (inl h) = ground arith
  write_word_beside m address value other (inr h) = ground arith

  -- A request is refused, with no effect, only if no free block has room for it. Else its place is
  -- in the free blocks between `low` and `high`, aligned, with the size and the padding in the two
  -- words before it, and no byte of it is free any more. The free blocks are in order, not empty,
  -- and so far from the end of the address space that the arithmetic does not wrap.
  pub allocate-free_list :
      (a : FreeListAllocator) (size al low high : ℕ) (pos : 0 < size) (alignment : IsAlignment al)
      (space : high + header_size + al + size < u64_mod)
      → Ordered low high a.free_list
      → ((allocate torn a size al ≡ (a, none))
          × All (IsTooSmall size al high pos alignment space) a.free_list)
        ⊎ ((f : Fit) × ((allocate torn a size al).1 ≡ some f.aligned)
            × ((allocate torn a size al).0.free_list ≡ f.rest)
            × IsPlace size al high pos alignment space low a.free_list f
            × ((allocate torn a size al).0.memory (f.aligned - header_size) ≡ size)
            × ((allocate torn a size al).0.memory (f.aligned - 8) ≡ f.padding))
  unfolding allocate
  allocate-free_list a size al low high pos alignment space h =
      elim (first_fit-cases size al high pos alignment space low a.free_list h) [
        | inl (e, small) ↦ inl (rw (allocate, lt→ltb 0 size pos, e) refl, small)
        | inr (f, e, p) ↦
            let header : sub64 f.aligned header_size ≡ f.aligned - header_size =
              omega (arith, p.ends, p.below) in
            let second : add64 (f.aligned - header_size) 8 ≡ f.aligned - 8 =
              omega (arith, p.ends, p.below) in
            inr (
              f,
              rw (allocate, lt→ltb 0 size pos, e) refl,
              rw (allocate, lt→ltb 0 size pos, e) refl,
              p,
              rw (allocate, lt→ltb 0 size pos, e, header, second)
                  (write_word_beside _ (f.aligned - 8) f.padding (f.aligned - header_size)
                      (inl (omega (arith, p.ends)))
                    ∙ write_word_same a.memory (f.aligned - header_size) size),
              rw (allocate, lt→ltb 0 size pos, e, header, second)
                  (write_word_same _ (f.aligned - 8) f.padding),
            )
      ]

  -- Beside the header of the new block the memory stays.
  pub allocate-memory :
      (a : FreeListAllocator) (size al pointer other : ℕ)
      → (allocate torn a size al).1 ≡ some pointer
      → header_size ≤ pointer
      → pointer < u64_mod
      → (other + 8 ≤ pointer - header_size) ⊎ (pointer ≤ other)
      → (allocate torn a size al).0.memory other ≡ a.memory other
  unfolding allocate
  allocate-memory a size al pointer other e low high beside = elim (Bool-cases (ltb 0 size)) [
    | inr empty ↦ absurd (ground arith)
    | inl pos ↦ elim (Option-cases (first_fit a.free_list size al)) [
      | inl none_fits ↦ absurd (ground arith)
      | inr (f, fits) ↦
          let at : f.aligned ≡ pointer =
            some-injective f.aligned pointer (sym (granted-pointer f pos fits) ∙ e) in
          let header : sub64 pointer header_size ≡ pointer - header_size = omega arith in
          let second : add64 (pointer - header_size) 8 ≡ pointer - 8 = omega arith in
          rw (allocate, pos, fits, at, header, second)
            (write_word_beside _ (pointer - 8) f.padding other (by_second beside)
              ∙ write_word_beside a.memory (pointer - header_size) size other (by_first beside))
    ]
  ]
    where
      granted-pointer :
          (f : Fit)
          → ltb 0 size ≡ true
          → first_fit a.free_list size al ≡ some f
          → (allocate torn a size al).1 ≡ some f.aligned
      granted-pointer f pos fits = rw (allocate, pos, fits) refl

      by_second :
          (other + 8 ≤ pointer - header_size) ⊎ (pointer ≤ other)
          → (other + 8 ≤ pointer - 8) ⊎ (pointer - 8 + 8 ≤ other)
      by_second (inl h) = inl (omega arith)
      by_second (inr h) = inr (omega arith)

      by_first :
          (other + 8 ≤ pointer - header_size) ⊎ (pointer ≤ other)
          → (other + 8 ≤ pointer - header_size) ⊎ (pointer - header_size + 8 ≤ other)
      by_first (inl h) = inl h
      by_first (inr h) = inr (omega arith)
