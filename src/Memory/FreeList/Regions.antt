-- ===== src/Memory/FreeList/Regions.antt =====
-- A region of which no byte is free stays so, as blocks are cut and joined elsewhere.
use tge_core.Prelude.{
  ℕ, ◌+◌, ◌≤◌, ◌<◌, ◌≡◌, ◌⊎◌, inl, inr, subst, ltb, ◌==◌, List, [], ◌∷◌, Bool-cases, arith,
}
use tge_core.Prelude.Words.{u64_mod, add64}
use tge_core.Memory.FreeList.{FreeBlock, insert_block, coalesce_from, coalesce_free_blocks}
use tge_core.Memory.FreeList.Chain.{Ordered, IsClear, Ordered-le}
use tge_core.Memory.FreeList.Blocks.{Cut, whole, part, skip}

module _ (start stop : ℕ) (some_bytes : start < stop) where
  -- It has no byte of the block that is cut either.
  pub Cut-IsClear :
      {bs rest : List FreeBlock} {b : FreeBlock}
      → Cut bs b rest
      → IsClear start stop bs
      → ((b.address + b.size ≤ start) ⊎ (stop ≤ b.address)) × IsClear start stop rest
  Cut-IsClear whole clear = clear
  Cut-IsClear (part low high) (inl h, clear) = (inl h, (inl (omega arith), clear))
  Cut-IsClear (part low high) (inr h, clear) = (inr h, (inr (omega arith), clear))
  Cut-IsClear (skip c) (h, clear) = let (home, others) = Cut-IsClear c clear in (home, (h, others))

  insert_block-IsClear :
      (new : FreeBlock) (bs : List FreeBlock)
      → (new.address + new.size ≤ start) ⊎ (stop ≤ new.address)
      → IsClear start stop bs
      → IsClear start stop (insert_block new bs)
  unfolding insert_block
  insert_block-IsClear new [] h clear = (h, tt)
  insert_block-IsClear new (b ∷ bs) h clear = elim (Bool-cases (ltb b.address new.address)) [
    | inl e ↦ rw e (clear.0, insert_block-IsClear new bs h clear.1)
    | inr e ↦ rw e (h, clear)
  ]

  joined_clear :
      (b next : FreeBlock)
      → b.address + b.size ≡ next.address
      → (b.address + b.size ≤ start) ⊎ (stop ≤ b.address)
      → (next.address + next.size ≤ start) ⊎ (stop ≤ next.address)
      → (b.address + (b.size + next.size) ≤ start) ⊎ (stop ≤ b.address)
  joined_clear b next touch (inr h) there = inr h
  joined_clear b next touch (inl h) (inl k) = inl (omega arith)
  joined_clear b next touch (inl h) (inr k) = absurd (omega arith)

  module _ (high : ℕ) (space : high < u64_mod) where
    coalesce_from-IsClear :
        (low : ℕ) (b : FreeBlock) (bs : List FreeBlock)
        → Ordered low high (b ∷ bs)
        → IsClear start stop (b ∷ bs)
        → IsClear start stop (coalesce_from b bs)
    unfolding coalesce_from
    coalesce_from-IsClear low b [] h clear = clear
    coalesce_from-IsClear low b (next ∷ bs) (above, pos, (behind, pos', h)) (here, (there, clear)) =
        let most = Ordered-le (next.address + next.size) high bs h in
        let plain : add64 b.address b.size ≡ b.address + b.size = omega arith in
        let sizes : add64 b.size next.size ≡ b.size + next.size = omega arith in
        elim (Bool-cases (b.address + b.size == next.address)) [
          | inl touch ↦
              let merged : FreeBlock = record b { size = b.size + next.size } in
              let joined : (b.address + (b.size + next.size) ≤ start) ⊎ (stop ≤ b.address) =
                joined_clear b next (ground arith) here there in
              let rest =
                coalesce_from-IsClear low merged bs
                  (above, omega arith, subst (λ n. Ordered n high bs) (ground arith) h)
                  (joined, clear) in
              rw (plain, sizes, touch) rest
          | inr gap ↦
              rw (plain, gap)
                (
                  here,
                  coalesce_from-IsClear (b.address + b.size) next bs (behind, pos', h)
                      (there, clear),
                )
        ]

    coalesce_free_blocks-IsClear :
        (low : ℕ) (bs : List FreeBlock)
        → Ordered low high bs
        → IsClear start stop bs
        → IsClear start stop (coalesce_free_blocks bs)
    unfolding coalesce_free_blocks
    coalesce_free_blocks-IsClear low [] h clear = clear
    coalesce_free_blocks-IsClear low (b ∷ bs) h clear = coalesce_from-IsClear low b bs h clear

    pub rejoin-IsClear :
        (low : ℕ) (new : FreeBlock) (bs : List FreeBlock)
        → Ordered low high (insert_block new bs)
        → (new.address + new.size ≤ start) ⊎ (stop ≤ new.address)
        → IsClear start stop bs
        → IsClear start stop (coalesce_free_blocks (insert_block new bs))
    rejoin-IsClear low new bs h apart clear =
        coalesce_free_blocks-IsClear low (insert_block new bs) h
          (insert_block-IsClear new bs apart clear)
