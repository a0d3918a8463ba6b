-- ===== src/Memory/FreeList/Chain.antt =====
-- Free blocks in the order of their addresses, and how a new one is joined to them.
use tge_core.Prelude.{
  ℕ, ◌+◌, ◌≤◌, ◌<◌, ◌≡◌, ◌⊎◌, inl, inr, refl, sym, subst, ltb, ◌==◌, false, List, [], ◌∷◌, All,
  All-map, Bool-cases, arith, ltb→lt,
}
use tge_core.Prelude.Words.{u64_mod, add64}
use tge_core.Memory.FreeList.{FreeBlock, insert_block, coalesce_from, coalesce_free_blocks}

-- The blocks are not empty and lie from `low` to `high`, each behind the one before it.
abbrev pub Ordered : ℕ → ℕ → List FreeBlock → Type 0
Ordered low high [] = low ≤ high
Ordered low high (b ∷ bs) = (low ≤ b.address) × (0 < b.size) × Ordered (b.address + b.size) high bs

-- No two neighbours touch.
abbrev pub Apart : List FreeBlock → Type 0
Apart [] = Unit
Apart (b ∷ []) = Unit
Apart (b ∷ next ∷ bs) = (b.address + b.size < next.address) × Apart (next ∷ bs)

-- No block has a byte from `start` up to `stop`.
abbrev pub IsClear : ℕ → ℕ → List FreeBlock → Type 0
IsClear start stop bs =
    All (λ (b : FreeBlock). (b.address + b.size ≤ start) ⊎ (stop ≤ b.address)) bs

abbrev pub free_bytes : List FreeBlock → ℕ
free_bytes [] = 0
free_bytes (b ∷ bs) = b.size + free_bytes bs

pub Ordered-le : (low high : ℕ) (bs : List FreeBlock) → Ordered low high bs → low ≤ high
Ordered-le low high [] h = h
Ordered-le low high (b ∷ bs) h = omega (arith, Ordered-le (b.address + b.size) high bs h.2)

-- The blocks behind a bound are above it.
pub Ordered-above :
    (low high : ℕ) (bs : List FreeBlock)
    → Ordered low high bs
    → All (λ (b : FreeBlock). low ≤ b.address) bs
Ordered-above low high [] h = tt
Ordered-above low high (b ∷ bs) h =
    (h.0, All-map (λ c k. omega arith) bs (Ordered-above (b.address + b.size) high bs h.2))

below_new :
    (b new : FreeBlock)
    → b.address < new.address
    → 0 < new.size
    → (b.address + b.size ≤ new.address) ⊎ (new.address + new.size ≤ b.address)
    → b.address + b.size ≤ new.address
below_new b new lower pos (inl h) = h
below_new b new lower pos (inr h) = omega arith

behind_new :
    (b new : FreeBlock)
    → ltb b.address new.address ≡ false
    → 0 < b.size
    → (b.address + b.size ≤ new.address) ⊎ (new.address + new.size ≤ b.address)
    → new.address + new.size ≤ b.address
behind_new b new e pos (inl h) = absurd (ground arith)
behind_new b new e pos (inr h) = h

pub insert_block-Ordered :
    (low high : ℕ) (new : FreeBlock) (bs : List FreeBlock)
    → Ordered low high bs
    → 0 < new.size
    → low ≤ new.address
    → new.address + new.size ≤ high
    → IsClear new.address (new.address + new.size) bs
    → Ordered low high (insert_block new bs)
unfolding insert_block
insert_block-Ordered low high new [] h pos above below clear = (above, pos, below)
insert_block-Ordered low high new (b ∷ bs) h pos above below clear =
    elim (Bool-cases (ltb b.address new.address)) [
      | inl e ↦
          let lower = ltb→lt b.address new.address e in
          rw e (
            h.0,
            h.1,
            insert_block-Ordered (b.address + b.size) high new bs h.2 pos
                (below_new b new lower pos clear.0) below clear.1,
          )
      | inr e ↦ rw e (above, pos, (behind_new b new e h.1 clear.0, h.1, h.2))
    ]

pub insert_block-bytes :
    (new : FreeBlock) (bs : List FreeBlock)
    → free_bytes (insert_block new bs) ≡ new.size + free_bytes bs
unfolding insert_block
insert_block-bytes new [] = refl
insert_block-bytes new (b ∷ bs) = ground (arith, insert_block-bytes new bs)

add64_small : (a b : ℕ) → a + b < u64_mod → add64 a b ≡ a + b
add64_small a b h = omega arith

module _ (high : ℕ) (space : high < u64_mod) where
  -- What holds of the chain after a walk from `b` on.
  Joined : FreeBlock → List FreeBlock → List FreeBlock → ℕ → Type 0
  Joined b bs joined low =
      Ordered low high joined
      × Apart joined
      × (free_bytes joined ≡ b.size + free_bytes bs)
      × ((c : FreeBlock) × (cs : List FreeBlock) × (joined ≡ c ∷ cs) × (c.address ≡ b.address))

  coalesce_from-Joined :
      (low : ℕ) (b : FreeBlock) (bs : List FreeBlock)
      → Ordered low high (b ∷ bs)
      → Joined b bs (coalesce_from b bs) low
  unfolding coalesce_from Joined
  coalesce_from-Joined low b [] h = (h, tt, refl, (b, [], refl, refl))
  coalesce_from-Joined low b (next ∷ bs) (above, pos, (behind, pos', h)) =
      let most = Ordered-le (next.address + next.size) high bs h in
      let plain : add64 b.address b.size ≡ b.address + b.size =
        add64_small b.address b.size (omega arith) in
      let sizes : add64 b.size next.size ≡ b.size + next.size =
        add64_small b.size next.size (omega arith) in
      elim (Bool-cases (b.address + b.size == next.address)) [
        | inl touch ↦
            let merged : FreeBlock = record b { size = b.size + next.size } in
            let (ordered, apart, bytes, first) =
              coalesce_from-Joined low merged bs
                (above, omega arith, subst (λ n. Ordered n high bs) (ground arith) h) in
            rw (plain, sizes, touch) (ordered, apart, omega (arith, bytes), first)
        | inr gap ↦
            let (ordered, apart, bytes, (c, cs, e, same)) =
              coalesce_from-Joined (b.address + b.size) next bs (behind, pos', h) in
            let room : b.address + b.size < c.address = ground (arith, same) in
            let all_apart : Apart (b ∷ coalesce_from next bs) =
              subst (λ l. Apart (b ∷ l)) (sym e) (room, subst Apart e apart) in
            rw (plain, gap)
              (
                (above, pos, ordered),
                all_apart,
                omega (arith, bytes),
                (b, coalesce_from next bs, refl, refl),
              )
      ]

  pub coalesce_free_blocks_lem :
      (low : ℕ) (bs : List FreeBlock)
      → Ordered low high bs
      → Ordered low high (coalesce_free_blocks bs)
        × Apart (coalesce_free_blocks bs)
        × (free_bytes (coalesce_free_blocks bs) ≡ free_bytes bs)
  unfolding coalesce_free_blocks Joined
  coalesce_free_blocks_lem low [] h = (h, tt, refl)
  coalesce_free_blocks_lem low (b ∷ bs) h =
      let (ordered, apart, bytes, first) = coalesce_from-Joined low b bs h in
      (ordered, apart, bytes)
