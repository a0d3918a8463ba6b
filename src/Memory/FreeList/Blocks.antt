-- ===== src/Memory/FreeList/Blocks.antt =====
-- The block that a request is given.
use tge_core.Prelude.{
  ℕ, ◌+◌, ◌-◌, ◌%◌, ◌≤◌, ◌<◌, ◌≡◌, ◌⊎◌, inl, inr, refl, subst, ap, ltb, leb, List, [], ◌∷◌, none,
  some, All, All-map, Bool-cases, arith, ltb→lt, leb→le,
}
use tge_core.Prelude.Words.{u64_mod, add64, align_up}
use tge_core.Prelude.Words.Align.{IsAlignment, align_up_bounds}
use tge_core.Memory.FreeList.{
  FreeBlock, Fit, header_size, free_block_size, data_address, padding_of, total_size, split,
  first_fit,
}
use tge_core.Memory.FreeList.Chain.{Ordered, IsClear, free_bytes, Ordered-le, Ordered-above}

weaken :
    (low low' high : ℕ) (bs : List FreeBlock)
    → low ≤ low'
    → Ordered low' high bs
    → Ordered low high bs
weaken low low' high [] le h = omega arith
weaken low low' high (b ∷ bs) le h = (omega (arith, h), h.1, h.2)

-- `Cut bs b rest`: `rest` is `bs` without `b`, or with a part of `b` in its place.
pub data Cut : List FreeBlock → FreeBlock → List FreeBlock → Type 0 where
  whole : {b : FreeBlock} {bs : List FreeBlock} → Cut (b ∷ bs) b bs
  part :
      {b c : FreeBlock} {bs : List FreeBlock}
      → b.address ≤ c.address
      → c.address + c.size ≤ b.address + b.size
      → Cut (b ∷ bs) b (c ∷ bs)
  skip : {x b : FreeBlock} {bs rest : List FreeBlock} → Cut bs b rest → Cut (x ∷ bs) b (x ∷ rest)

module _ (size al high : ℕ) (pos : 0 < size) (alignment : IsAlignment al)
    (space : high + header_size + al + size < u64_mod) where
  -- A block that has no room for the request.
  pub IsTooSmall : FreeBlock → Type 0
  IsTooSmall b = b.address + b.size < align_up (b.address + header_size) al + size

  -- The place that was found: from `start` on there are a padding, a header and the client's bytes,
  -- and none of them is in a free block any more. `lost` bytes are in no block at all.
  pub record IsPlace (low : ℕ) (bs : List FreeBlock) (f : Fit) : Type 0 where
    pub start : ℕ
    pub home : FreeBlock
    pub lost : ℕ
    pub ends : start + f.padding + header_size ≡ f.aligned
    pub cut : Cut bs home f.rest
    pub at_home : home.address ≡ start
    pub within : f.aligned + size ≤ home.address + home.size
    pub above : low ≤ start
    pub below : f.aligned + size ≤ high
    pub is_aligned : f.aligned % al ≡ 0
    pub ordered : Ordered low high f.rest
    pub clear : IsClear start (f.aligned + size) f.rest
    pub little : lost ≤ free_block_size
    pub bytes : free_bytes bs ≡ free_bytes f.rest + (f.padding + header_size + size) + lost

  -- The arithmetic of one block, which does not wrap.
  record Sizes (b : FreeBlock) : Type 0 where
    aligned_up : align_up (data_address b) al % al ≡ 0
    total : total_size b size al ≡ padding_of b al + header_size + size
    starts : b.address + padding_of b al + header_size ≡ align_up (data_address b) al
    begins : data_address b ≡ b.address + header_size

  sizes : (low : ℕ) (b : FreeBlock) (bs : List FreeBlock) → Ordered low high (b ∷ bs) → Sizes b
  sizes low b bs h =
      let most = Ordered-le (b.address + b.size) high bs h.2 in
      let begins : data_address b ≡ b.address + header_size = omega (arith, most) in
      let bounds = align_up_bounds (data_address b) al alignment (omega (arith, most)) in
      record {
        aligned_up = bounds.2;
        total = omega (arith, most, bounds);
        starts = omega (arith, most, bounds);
        begins = begins;
      }

  split-IsPlace :
      (low : ℕ) (b : FreeBlock) (bs : List FreeBlock) (aligned padding total : ℕ)
      → Ordered low high (b ∷ bs)
      → total ≡ padding + header_size + size
      → b.address + padding + header_size ≡ aligned
      → aligned % al ≡ 0
      → total ≤ b.size
      → IsPlace low
          (b ∷ bs)
          (record { aligned = aligned; padding = padding; rest = split b bs total })
  unfolding split
  split-IsPlace low b bs aligned padding total h sum starts is_aligned fits =
      let most = Ordered-le (b.address + b.size) high bs h.2 in
      let above = Ordered-above (b.address + b.size) high bs h.2 in
      let others : IsClear b.address (aligned + size) bs =
        All-map (λ c k. inr (omega arith)) bs above in
      let plain : add64 b.address total ≡ b.address + total = omega arith in
      elim (Bool-cases (ltb free_block_size (b.size - total))) [
        | inl large ↦
            let left = ltb→lt free_block_size (b.size - total) large in
            rw (split, large, plain)
              (record {
                start = b.address;
                home = b;
                at_home = refl;
                within = omega arith;
                cut = part (omega arith) (omega arith);
                lost = 0;
                ends = starts;
                above = h.0;
                below = omega arith;
                is_aligned = is_aligned;
                ordered = (
                  omega (arith, h),
                  omega arith,
                  subst (λ n. Ordered n high bs) (omega arith) h.2,
                );
                clear = (inr (omega arith), others);
                little = omega arith;
                bytes = omega arith;
              })
        | inr few ↦
            rw (split, few)
              (record {
                start = b.address;
                home = b;
                at_home = refl;
                within = omega arith;
                cut = whole;
                lost = b.size - total;
                ends = starts;
                above = h.0;
                below = omega arith;
                is_aligned = is_aligned;
                ordered = weaken low (b.address + b.size) high bs (omega (arith, h)) h.2;
                clear = others;
                little = ground arith;
                bytes = omega arith;
              })
      ]

  pub first_fit-cases :
      (low : ℕ) (bs : List FreeBlock)
      → Ordered low high bs
      → ((first_fit bs size al ≡ none) × All IsTooSmall bs)
        ⊎ ((f : Fit) × (first_fit bs size al ≡ some f) × IsPlace low bs f)
  unfolding first_fit IsTooSmall
  first_fit-cases low [] h = inl (refl, tt)
  first_fit-cases low (b ∷ bs) h =
      let s = sizes low b bs h in
      elim (Bool-cases (leb (total_size b size al) b.size)) [
        | inl fits ↦ inr (
          _,
          rw (first_fit, fits) refl,
          split-IsPlace low b bs (align_up (data_address b) al) (padding_of b al)
              (total_size b size al) h s.total s.starts s.aligned_up
              (leb→le (total_size b size al) b.size fits),
        )
        | inr small ↦ elim (first_fit-cases (b.address + b.size) bs h.2) [
          | inl (e, others) ↦
              let grown = ap (λ n. align_up n al) s.begins in
              let too_small : IsTooSmall b = ground (arith, s.total, s.starts, grown) in
              inl (rw (first_fit, small, e) refl, (too_small, others))
          | inr (f, e, p) ↦ inr (
            record f { rest = b ∷ f.rest },
            rw (first_fit, small, e) refl,
            record {
              start = p.start;
              home = p.home;
              at_home = p.at_home;
              within = p.within;
              cut = skip p.cut;
              lost = p.lost;
              ends = p.ends;
              above = omega (arith, h, p.above);
              below = p.below;
              is_aligned = p.is_aligned;
              ordered = (h.0, h.1, p.ordered);
              clear = (inl p.above, p.clear);
              little = p.little;
              bytes = omega (arith, p.bytes);
            },
          )
        ]
      ]
