-- ===== src/Memory/FreeList/Held.antt =====
-- A place that is given back, and what `deallocate` reads and writes there.
use tge_core.Prelude.{◌⊎◌, ℕ, ◌+◌, ◌-◌, ◌≤◌, ◌<◌, ◌≡◌, inl, inr, refl, sym, subst, ◌∙◌, some, arith}
use tge_core.Prelude.Words.{u64_mod, add64, sub64}
use tge_core.Memory.Counters.{record_dealloc}
use tge_core.Memory.FreeList.{
  FreeListAllocator, FreeBlock, header_size, write_word, deallocate, insert_block,
  coalesce_free_blocks, next_address,
}
use tge_core.Memory.FreeList.Chain.{
  Ordered, Apart, IsClear, free_bytes, insert_block-Ordered, insert_block-bytes,
  coalesce_free_blocks_lem,
}
use tge_core.Memory.FreeList.Grants.{write_word_same, write_word_beside}

module _ (torn : (ℕ → ℕ) → ℕ → ℕ → ℕ → ℕ) where
  -- A place that is given back: its size and its padding stand before it, and it is not free.
  pub record IsHeld (b : FreeListAllocator) (low high start padding size address : ℕ) : Type 0 where
    pub held_size : b.memory (address - header_size) ≡ size
    pub held_padding : b.memory (address - 8) ≡ padding
    pub ends : start + padding + header_size ≡ address
    pub below : address + size ≤ high
    pub above : low ≤ start
    pub ordered : Ordered low high b.free_list
    pub clear : IsClear start (address + size) b.free_list

  module _ (b : FreeListAllocator) (buffer low high start padding size address : ℕ)
      (space : high < u64_mod) (has_buffer : b.buffer ≡ some buffer)
      (held : IsHeld b low high start padding size address) where
    open held use {held_size, held_padding, ends, below, above, ordered, clear}

    abbrev pub new_block : FreeBlock
    new_block = record { address = start; size = padding + header_size + size }

    -- The memory when the size is read again.
    pub relinked : ℕ → ℕ
    relinked =
        write_word torn
          (write_word torn (write_word torn b.memory start (padding + header_size + size))
            (start + 8) 0)
          (start + 8) (next_address torn new_block b.free_list)

    -- What `deallocate` computes from the header.
    record Reads : Type 0 where
      header : sub64 address header_size ≡ address - header_size
      second : add64 (address - header_size) 8 ≡ address - 8
      first : sub64 (address - header_size) padding ≡ start
      total : add64 (add64 header_size padding) size ≡ padding + header_size + size
      behind : add64 start 8 ≡ start + 8

    reads : Reads
    reads = record {
      header = omega arith;
      second = omega arith;
      first = omega arith;
      total = omega arith;
      behind = omega arith;
    }

    pub held-free_list :
        (deallocate torn b (some address)).free_list
        ≡ coalesce_free_blocks (insert_block new_block b.free_list)
    unfolding deallocate
    held-free_list =
        let r = reads in
        rw (deallocate, has_buffer, r.header, r.second, held_size, held_padding, r.first, r.total)
          refl

    pub held-counters :
        (deallocate torn b (some address)).counters
        ≡ record_dealloc b.counters (relinked (address - header_size))
    unfolding deallocate relinked
    held-counters =
        let r = reads in
        rw
          (
            deallocate, has_buffer, r.header, r.second, held_size, held_padding, r.first, r.total,
            r.behind,
          )
          refl

    pub held-buffer : (deallocate torn b (some address)).buffer ≡ b.buffer
    unfolding deallocate
    held-buffer = rw (deallocate, has_buffer) has_buffer

    pub held-memory :
        (other : ℕ)
        → (other + 8 ≤ start) ⊎ (start + 16 ≤ other)
        → (deallocate torn b (some address)).memory other ≡ b.memory other
    unfolding deallocate
    held-memory other beside =
        let r = reads in
        rw
          (
            deallocate, has_buffer, r.header, r.second, held_size, held_padding, r.first, r.total,
            r.behind,
          )
          (write_word_beside torn _ (start + 8) _ other (by_second beside)
            ∙ write_word_beside torn _ (start + 8) 0 other (by_second beside)
            ∙ write_word_beside torn b.memory start _ other (by_first beside))
      where
        by_second :
            (other + 8 ≤ start) ⊎ (start + 16 ≤ other)
            → (other + 8 ≤ start + 8) ⊎ (start + 8 + 8 ≤ other)
        by_second (inl h) = inl (omega arith)
        by_second (inr h) = inr (omega arith)

        by_first :
            (other + 8 ≤ start) ⊎ (start + 16 ≤ other) → (other + 8 ≤ start) ⊎ (start + 8 ≤ other)
        by_first (inl h) = inl h
        by_first (inr h) = inr (omega arith)

    pub held_inserted : Ordered low high (insert_block new_block b.free_list)
    held_inserted =
        let upto : start + new_block.size ≡ address + size = omega arith in
        insert_block-Ordered low high new_block b.free_list ordered (omega arith) above
          (omega arith) (subst (λ n. IsClear start n b.free_list) (sym upto) clear)

    pub held_lem :
        Ordered low high (deallocate torn b (some address)).free_list
        × Apart (deallocate torn b (some address)).free_list
        × (free_bytes (deallocate torn b (some address)).free_list
            ≡ padding + header_size + size + free_bytes b.free_list)
    held_lem =
        let (sorted, apart, bytes) =
          coalesce_free_blocks_lem high space low (insert_block new_block b.free_list)
            held_inserted in
        rw held-free_list (sorted, apart, bytes ∙ insert_block-bytes new_block b.free_list)

    -- The word that is read again for the counters.
    pub relinked_plain : padding ≡ 0 → relinked (address - header_size) ≡ header_size + size
    unfolding relinked
    relinked_plain none_before =
        let here : address - header_size ≡ start = omega arith in
        rw here (
          write_word_beside torn _ (start + 8) _ start (inl (omega arith))
          ∙ write_word_beside torn _ (start + 8) 0 start (inl (omega arith))
          ∙ write_word_same torn b.memory start (padding + header_size + size)
          ∙ omega arith)

    pub relinked_padded : header_size ≤ padding → relinked (address - header_size) ≡ size
    unfolding relinked
    relinked_padded wide =
        write_word_beside torn _ (start + 8) _ (address - header_size) (inr (omega arith))
        ∙ write_word_beside torn _ (start + 8) 0 (address - header_size) (inr (omega arith))
        ∙ write_word_beside torn b.memory start _ (address - header_size) (inr (omega arith))
        ∙ held_size
