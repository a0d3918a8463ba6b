-- ===== src/Memory/FreeList/Usage.antt =====
-- What is restored when a block is given back.
use tge_core.Prelude.{
  ℕ, ◌+◌, ◌-◌, ◌≤◌, ◌<◌, ◌≡◌, ◌⊎◌, inl, inr, refl, sym, subst, ap, ◌∙◌, ltb, leb, ◌==◌, some,
  Bool-cases, Option-cases, arith,
}
use mathlib.Core.Option.{some-injective}
use tge_core.Prelude.Words.{u64_mod, add64, sub64}
use tge_core.Prelude.Words.Align.{IsAlignment}
use tge_core.Memory.Counters.{Counters, record_alloc, record_dealloc}
use tge_core.Memory.FreeList.{
  FreeListAllocator, header_size, free_block_size, first_fit, allocate, deallocate,
}
use tge_core.Memory.FreeList.Chain.{Ordered, Apart, IsClear, free_bytes}
use tge_core.Memory.FreeList.Grants.{allocate-free_list}
use tge_core.Memory.FreeList.Held.{
  IsHeld, relinked, held-counters, held_lem, relinked_plain, relinked_padded,
}

returned_more :
    (usage size : ℕ)
    → usage < u64_mod
    → header_size + size < u64_mod
    → sub64 (add64 usage size) (header_size + size) ≡ sub64 usage header_size
returned_more usage size h k = omega arith

returned_same :
    (usage size : ℕ) → usage < u64_mod → size < u64_mod → sub64 (add64 usage size) size ≡ usage
returned_same usage size h k = omega arith

module _ (torn : (ℕ → ℕ) → ℕ → ℕ → ℕ → ℕ) where
  pub granted :
      (a : FreeListAllocator) (size al pointer : ℕ)
      → (allocate torn a size al).1 ≡ some pointer
      → ((allocate torn a size al).0.buffer ≡ a.buffer)
        × ((allocate torn a size al).0.counters ≡ record_alloc a.counters size)
  unfolding allocate
  granted a size al pointer e = elim (Bool-cases (ltb 0 size)) [
    | inr empty ↦ absurd (ground arith)
    | inl pos ↦ elim (Option-cases (first_fit a.free_list size al)) [
      | inl none_fits ↦ absurd (ground arith)
      | inr (f, fits) ↦ rw (allocate, pos, fits) (refl, refl)
    ]
  ]

  IsHeld-allocate :
      (a : FreeListAllocator) (size al low high : ℕ) (pos : 0 < size) (alignment : IsAlignment al)
      (space : high + header_size + al + size < u64_mod) (pointer : ℕ)
      → Ordered low high a.free_list
      → (allocate torn a size al).1 ≡ some pointer
      → (start : ℕ) × (padding : ℕ) × (lost : ℕ) × IsHeld torn
          (allocate torn a size al).0
          low
          high
          start
          padding
          size
          pointer
        × (lost ≤ free_block_size)
        × (free_bytes a.free_list
            ≡ padding
              + header_size
              + size
              + free_bytes (allocate torn a size al).0.free_list
              + lost)
  IsHeld-allocate a size al low high pos alignment space pointer h e =
      elim (allocate-free_list torn a size al low high pos alignment space h) [
        | inl (same, small) ↦ absurd (ground (arith, same))
        | inr (f, found, list, p, size_word, padding_word) ↦
            let here : f.aligned ≡ pointer = some-injective f.aligned pointer (sym found ∙ e) in
            (
              p.start,
              f.padding,
              p.lost,
              record {
                held_size =
                    subst (λ n. (allocate torn a size al).0.memory (n - header_size) ≡ size) here
                      size_word;
                held_padding =
                    subst (λ n. (allocate torn a size al).0.memory (n - 8) ≡ f.padding) here
                      padding_word;
                ends = p.ends ∙ here;
                below = subst (λ n. n + size ≤ high) here p.below;
                above = p.above;
                ordered = subst (Ordered low high) (sym list) p.ordered;
                clear =
                    subst (λ n. IsClear p.start (n + size) (allocate torn a size al).0.free_list)
                      here (subst (IsClear p.start (f.aligned + size)) (sym list) p.clear);
              },
              p.little,
              rw list (omega (arith, p.bytes)),
            )
      ]

  -- When a block is given back right after it was granted, the free blocks are in order again, no
  -- two of them touch, and they hold all the bytes they held but for at most 16: what was left of
  -- the block that was found, and too small for a free block of its own, is lost.
  pub deallocate-free_list :
      (a : FreeListAllocator) (size al low high : ℕ) (pos : 0 < size) (alignment : IsAlignment al)
      (space : high + header_size + al + size < u64_mod) (buffer pointer : ℕ)
      → a.buffer ≡ some buffer
      → Ordered low high a.free_list
      → (allocate torn a size al).1 ≡ some pointer
      → Ordered low high (deallocate torn (allocate torn a size al).0 (some pointer)).free_list
        × Apart (deallocate torn (allocate torn a size al).0 (some pointer)).free_list
        × ((lost : ℕ) × (lost ≤ free_block_size)
            × (free_bytes a.free_list
                ≡ free_bytes (deallocate torn (allocate torn a size al).0 (some pointer)).free_list
                  + lost))
  deallocate-free_list a size al low high pos alignment space buffer pointer has_buffer h e =
      let (start, padding, lost, held, little, bytes) =
        IsHeld-allocate a size al low high pos alignment space pointer h e in
      let (same_buffer, counted) = granted a size al pointer e in
      let (ordered, apart, all) =
        held_lem torn (allocate torn a size al).0 buffer low high start padding size pointer
          (omega arith) (same_buffer ∙ has_buffer) held in
      (ordered, apart, (lost, little, omega (arith, bytes, all)))

  -- The usage when a block is given back right after it was granted. Without padding the header is
  -- overwritten before its size is read again, and the usage ends 16 lower than it began, and wraps
  -- if it was less than that; with a padding of 16 or more it ends as it began. The padding is the
  -- word before the block.
  pub deallocate-counters :
      (a : FreeListAllocator) (size al low high : ℕ) (pos : 0 < size) (alignment : IsAlignment al)
      (space : high + header_size + al + size < u64_mod) (buffer pointer : ℕ)
      → a.buffer ≡ some buffer
      → Ordered low high a.free_list
      → a.counters.current_usage < u64_mod
      → (allocate torn a size al).1 ≡ some pointer
      → (((allocate torn a size al).0.memory (pointer - 8) ≡ 0)
          × ((deallocate torn (allocate torn a size al).0 (some pointer)).counters.current_usage
              ≡ sub64 a.counters.current_usage header_size))
        ⊎ (((header_size ≤ (allocate torn a size al).0.memory (pointer - 8))
              × ((deallocate torn (allocate torn a size al).0 (some pointer)).counters.current_usage
                  ≡ a.counters.current_usage))
            ⊎ ((0 < (allocate torn a size al).0.memory (pointer - 8))
                × ((allocate torn a size al).0.memory (pointer - 8) < header_size)))
  unfolding record_alloc record_dealloc
  deallocate-counters a size al low high pos alignment space buffer pointer has_buffer h word e =
      let (start, padding, lost, held, little, bytes) =
        IsHeld-allocate a size al low high pos alignment space pointer h e in
      let (same_buffer, counted) = granted a size al pointer e in
      let b = (allocate torn a size al).0 in
      let here = same_buffer ∙ has_buffer in
      let under : high < u64_mod = omega arith in
      let word_read =
        relinked torn b buffer low high start padding size pointer under here held
          (pointer - header_size) in
      let after = held-counters torn b buffer low high start padding size pointer under here held in
      let usage : (deallocate torn b (some pointer)).counters.current_usage
          ≡ sub64 (add64 a.counters.current_usage size) word_read =
        ap (λ (c : Counters). c.current_usage)
          (after ∙ ap (λ c. record_dealloc c word_read) counted) in
      elim (Bool-cases (padding == 0)) [
        | inl zero ↦
            let none_before : padding ≡ 0 = ground arith in
            let read =
              relinked_plain torn b buffer low high start padding size pointer under here held
                none_before in
            inl (
              held.held_padding ∙ none_before,
              usage
                  ∙ ap (sub64 (add64 a.counters.current_usage size)) read
                  ∙ returned_more a.counters.current_usage size word (omega arith),
            )
        | inr some_before ↦ elim (Bool-cases (leb header_size padding)) [
          | inl wide ↦
              let read =
                relinked_padded torn b buffer low high start padding size pointer under here held
                  (ground arith) in
              inr (
                inl (
                  ground (arith, held.held_padding),
                  usage
                      ∙ ap (sub64 (add64 a.counters.current_usage size)) read
                      ∙ returned_same a.counters.current_usage size word (omega arith),
                ))
          | inr narrow ↦
              inr (inr (ground (arith, held.held_padding), ground (arith, held.held_padding)))
        ]
      ]
