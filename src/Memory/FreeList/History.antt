-- ===== src/Memory/FreeList/History.antt =====
-- The blocks that clients hold, over every sequence of requests, returns and writes.
use tge_core.Prelude.{
  ℕ, ◌+◌, ◌-◌, ◌≤◌, ◌<◌, ◌≡◌, ◌⊎◌, inl, inr, refl, sym, subst, ◌∙◌, lt→ltb, List, [], ◌∷◌, Option,
  some, All, All-map, All-zip, arith,
}
use tge_core.Prelude.Words.{u64_mod}
use tge_core.Prelude.Words.Align.{IsAlignment}
use tge_core.Memory.FreeList.{
  FreeListAllocator, Fit, create, allocate, deallocate, write_word, header_size,
}
use tge_core.Memory.FreeList.Chain.{Ordered, IsClear}
use tge_core.Memory.FreeList.Blocks.{IsPlace}
use tge_core.Memory.FreeList.Grants.{write_word_beside, allocate-memory, allocate-free_list}
use tge_core.Memory.FreeList.Held.{
  IsHeld, held_lem, held-free_list, held-memory, held-buffer, held_inserted, new_block,
}
use tge_core.Memory.FreeList.Usage.{granted}
use tge_core.Memory.FreeList.Regions.{Cut-IsClear, rejoin-IsClear}
use tge_core.Memory.FreeList.Places.{
  Place, Without, place_at, held_with, AreBeside, AreApart, Without-All, Without-join,
  Without-AreApart,
}

module _ (torn : (ℕ → ℕ) → ℕ → ℕ → ℕ → ℕ) (low high : ℕ) (space : high < u64_mod) where
  -- `Runs a ps`: steps from a new allocator over the bytes from `low` up to `high` lead to `a`, with
  -- the clients holding `ps`. A client returns what it holds, and writes only there.
  pub data Runs : FreeListAllocator → List Place → Type 0 where
    made : (memory : ℕ → ℕ) → low < high → Runs (create (λ _. some low) memory (high - low)) []
    requests :
        {a : FreeListAllocator} {ps : List Place} (size al : ℕ)
        → Runs a ps
        → 0 < size
        → IsAlignment al
        → high + header_size + al + size < u64_mod
        → Runs
            (allocate torn a size al).0
            (held_with (allocate torn a size al).0 size (allocate torn a size al).1 ps)
    returns :
        {a : FreeListAllocator} {ps rest : List Place} (p : Place)
        → Runs a ps
        → Without ps p rest
        → Runs (deallocate torn a (some p.address)) rest
    writes :
        {a : FreeListAllocator} {ps rest : List Place} (p : Place) (at value : ℕ)
        → Runs a ps
        → Without ps p rest
        → p.address ≤ at
        → at + 8 ≤ p.address + p.size
        → Runs (record a { memory = write_word torn a.memory at value }) ps

  IsKept : FreeListAllocator → Place → Type 0
  IsKept a p = IsHeld torn a low high p.start p.padding p.size p.address × (0 < p.size)

  record IsSound (a : FreeListAllocator) (ps : List Place) : Type 0 where
    has_buffer : a.buffer ≡ some low
    ordered : Ordered low high a.free_list
    kept : All (IsKept a) ps
    apart : AreApart ps

  -- A place stays kept if its header is not written and none of its bytes is freed.
  stays :
      (a b : FreeListAllocator) (p : Place)
      → Ordered low high b.free_list
      → b.memory (p.address - header_size) ≡ a.memory (p.address - header_size)
      → b.memory (p.address - 8) ≡ a.memory (p.address - 8)
      → IsClear p.start (p.address + p.size) b.free_list
      → IsKept a p
      → IsKept b p
  unfolding IsKept
  stays a b p ordered first second clear (h, pos) = (
    record {
      held_size = first ∙ h.held_size;
      held_padding = second ∙ h.held_padding;
      ends = h.ends;
      below = h.below;
      above = h.above;
      ordered = ordered;
      clear = clear;
    },
    pos,
  )

  allocate-IsKept :
      (a : FreeListAllocator) (size al : ℕ)
      → Ordered low high a.free_list
      → (pos : 0 < size) → (alignment : IsAlignment al)
      → (room : high + header_size + al + size < u64_mod) → (f : Fit)
      → (allocate torn a size al).1 ≡ some f.aligned
      → (allocate torn a size al).0.free_list ≡ f.rest
      → (p : IsPlace size al high pos alignment room low a.free_list f) → (q : Place) → IsKept a q
      → IsKept (allocate torn a size al).0 q
        × ((f.aligned + size ≤ q.start) ⊎ (q.address + q.size ≤ p.start))
  unfolding IsKept
  allocate-IsKept a size al ordered pos alignment room f found list p q (h, bytes) =
      let b = (allocate torn a size al).0 in
      let (avoids, clear) =
        Cut-IsClear q.start (q.address + q.size) (omega (arith, h.ends)) p.cut h.clear in
      let beside : (f.aligned + size ≤ q.start) ⊎ (q.address + q.size ≤ p.start) = elim avoids [
        | inl k ↦ inl (omega (arith, p.at_home, p.within, k))
        | inr k ↦ inr (omega (arith, p.at_home, p.within, k))
      ] in
      let same : (other : ℕ)
          → q.start ≤ other
          → other + 8 ≤ q.address
          → b.memory other ≡ a.memory other =
        (λ other low_end high_end.
          allocate-memory torn a size al f.aligned other found (omega (arith, p.ends))
            (omega (arith, p.below))
            (elim beside [ inl k ↦ inr (omega arith) | inr k ↦ inl (omega (arith, p.ends)) ])) in
      (
        stays a b q (subst (Ordered low high) (sym list) p.ordered)
            (same (q.address - header_size) (omega (arith, h.ends)) (omega (arith, h.ends)))
            (same (q.address - 8) (omega (arith, h.ends)) (omega (arith, h.ends)))
            (subst (IsClear q.start (q.address + q.size)) (sym list) clear) (h, bytes),
        beside,
      )

  allocate-IsSound :
      (a : FreeListAllocator) (ps : List Place) (size al : ℕ)
      → IsSound a ps
      → (pos : 0 < size) → (alignment : IsAlignment al)
      → (room : high + header_size + al + size < u64_mod)
      → IsSound
          (allocate torn a size al).0
          (held_with (allocate torn a size al).0 size (allocate torn a size al).1 ps)
  unfolding IsKept
  allocate-IsSound a ps size al s pos alignment room =
      elim (allocate-free_list torn a size al low high pos alignment room s.ordered) [
        | inl (same, small) ↦
            subst (λ (r : FreeListAllocator × Option ℕ). IsSound r.0 (held_with r.0 size r.1 ps))
              (sym same) s
        | inr (f, found, list, p, size_word, padding_word) ↦
            let b = (allocate torn a size al).0 in
            let new : Place = record {
              start = p.start;
              padding = f.padding;
              size = size;
              address = f.aligned;
            } in
            let ordered' : Ordered low high b.free_list =
              subst (Ordered low high) (sym list) p.ordered in
            let clear' : IsClear p.start (f.aligned + size) b.free_list =
              subst (IsClear p.start (f.aligned + size)) (sym list) p.clear in
            let fresh : IsKept b new = (
              record {
                held_size = size_word;
                held_padding = padding_word;
                ends = p.ends;
                below = p.below;
                above = p.above;
                ordered = ordered';
                clear = clear';
              },
              pos,
            ) in
            let old : All (λ q. IsKept b q × AreBeside new q) ps =
              All-map (λ q. allocate-IsKept a size al s.ordered pos alignment room f found list p q)
                ps s.kept in
            let same_start : f.aligned - header_size - f.padding ≡ p.start =
              omega (arith, p.ends) in
            let at : place_at b size f.aligned ≡ new = rw (padding_word, same_start) refl in
            subst (λ o. IsSound b (held_with b size o ps)) (sym found)
              (subst (λ x. IsSound b (x ∷ ps)) (sym at)
                (record {
                  has_buffer = (granted torn a size al f.aligned found).0 ∙ s.has_buffer;
                  ordered = ordered';
                  kept = (fresh, All-map (λ q h. h.0) ps old);
                  apart = (All-map (λ q h. h.1) ps old, s.apart);
                }))
      ]

  -- The words of a header are in the place, in front of the client's bytes.
  deallocate-IsKept :
      (a : FreeListAllocator) (p q : Place)
      → a.buffer ≡ some low
      → IsKept a p
      → IsKept a q
      → AreBeside p q
      → IsKept (deallocate torn a (some p.address)) q
  unfolding IsKept
  deallocate-IsKept a p q has_buffer (h, bytes) (k, bytes') beside =
      let b = deallocate torn a (some p.address) in
      let (sorted, apart, all) =
        held_lem torn a low low high p.start p.padding p.size p.address space has_buffer h in
      let list =
        held-free_list torn a low low high p.start p.padding p.size p.address space has_buffer h in
      let inserted =
        held_inserted torn a low low high p.start p.padding p.size p.address space has_buffer h in
      let new =
        new_block torn a low low high p.start p.padding p.size p.address space has_buffer h in
      let avoids : (p.start + new.size ≤ q.start) ⊎ (q.address + q.size ≤ p.start) = elim beside [
        | inl e ↦ inl (omega (arith, h.ends))
        | inr e ↦ inr e
      ] in
      let clear =
        rejoin-IsClear q.start (q.address + q.size) (omega (arith, k.ends)) high space low new
          a.free_list inserted avoids k.clear in
      let same : (other : ℕ)
          → q.start ≤ other
          → other + 8 ≤ q.address
          → b.memory other ≡ a.memory other =
        (λ other low_end high_end.
          held-memory torn a low low high p.start p.padding p.size p.address space has_buffer h
            other
            (elim beside [ inl e ↦ inr (omega (arith, h.ends)) | inr e ↦ inl (omega arith) ])) in
      stays a b q sorted
        (same (q.address - header_size) (omega (arith, k.ends)) (omega (arith, k.ends)))
        (same (q.address - 8) (omega (arith, k.ends)) (omega (arith, k.ends)))
        (subst (IsClear q.start (q.address + q.size)) (sym list) clear) (k, bytes')

  -- A write to the client's bytes of `p` leaves the header of `p`, and all of a place beside it.
  write_word-IsKept :
      (a : FreeListAllocator) (p q : Place) (at value : ℕ)
      → IsKept a q
      → Ordered low high a.free_list
      → p.address ≤ at
      → at + 8 ≤ p.address + p.size
      → p.start ≤ p.address
      → (q.address ≤ p.address) ⊎ AreBeside p q
      → IsKept (record a { memory = write_word torn a.memory at value }) q
  unfolding IsKept
  write_word-IsKept a p q at value (k, bytes) ordered above below before beside =
      let b : FreeListAllocator = record a { memory = write_word torn a.memory at value } in
      let same : (other : ℕ)
          → q.start ≤ other
          → other + 8 ≤ q.address
          → b.memory other ≡ a.memory other =
        (λ other low_end high_end. write_word_beside torn a.memory at value other (elim beside [
          | inl e ↦ inl (omega arith)
          | inr e ↦ elim e [ inl e' ↦ inr (omega arith) | inr e' ↦ inl (omega arith) ]
        ])) in
      stays a b q ordered
        (same (q.address - header_size) (omega (arith, k.ends)) (omega (arith, k.ends)))
        (same (q.address - 8) (omega (arith, k.ends)) (omega (arith, k.ends))) k.clear (k, bytes)

  deallocate-IsSound :
      (a : FreeListAllocator) (ps rest : List Place) (p : Place)
      → IsSound a ps
      → Without ps p rest
      → IsSound (deallocate torn a (some p.address)) rest
  unfolding IsKept
  deallocate-IsSound a ps rest p s w =
      let (kept, others) = Without-All (IsKept a) w s.kept in
      let (beside, apart) = Without-AreApart w s.apart in
      let h = kept.0 in
      let sorted =
        held_lem torn a low low high p.start p.padding p.size p.address space s.has_buffer h in
      record {
        has_buffer =
            held-buffer torn a low low high p.start p.padding p.size p.address space s.has_buffer h
            ∙ s.has_buffer;
        ordered = sorted.0;
        kept = All-zip (λ q. deallocate-IsKept a p q s.has_buffer kept) rest others beside;
        apart = apart;
      }

  write_word-IsSound :
      (a : FreeListAllocator) (ps rest : List Place) (p : Place) (at value : ℕ)
      → IsSound a ps
      → Without ps p rest
      → p.address ≤ at
      → at + 8 ≤ p.address + p.size
      → IsSound (record a { memory = write_word torn a.memory at value }) ps
  unfolding IsKept
  write_word-IsSound a ps rest p at value s w above below =
      let (kept, others) = Without-All (IsKept a) w s.kept in
      let (beside, apart) = Without-AreApart w s.apart in
      let b : FreeListAllocator = record a { memory = write_word torn a.memory at value } in
      let before : p.start ≤ p.address = omega (arith, kept.0.ends) in
      record {
        has_buffer = s.has_buffer;
        ordered = s.ordered;
        kept =
            Without-join (IsKept b) w
              (write_word-IsKept a p p at value kept s.ordered above below before
                (inl (omega arith)))
              (All-zip
                (λ q k e. write_word-IsKept a p q at value k s.ordered above below before (inr e))
                rest others beside);
        apart = s.apart;
      }

  Runs-IsSound : {a : FreeListAllocator} {ps : List Place} → Runs a ps → IsSound a ps
  unfolding create
  Runs-IsSound (made memory lt) =
      let pos : 0 < high - low = omega arith in
      rw (create, lt→ltb 0 (high - low) pos)
        (record {
          has_buffer = refl;
          ordered = (omega arith, pos, omega arith);
          kept = tt;
          apart = tt;
        })
  Runs-IsSound (requests {a = a} {ps = ps} size al r pos alignment room) =
      allocate-IsSound a ps size al (Runs-IsSound r) pos alignment room
  Runs-IsSound (returns {a = a} {ps = ps} {rest = rest} p r w) =
      deallocate-IsSound a ps rest p (Runs-IsSound r) w
  Runs-IsSound (writes {a = a} {ps = ps} {rest = rest} p at value r w above below) =
      write_word-IsSound a ps rest p at value (Runs-IsSound r) w above below

  -- Where a block lies: in the buffer, behind its header, and in no free block.
  pub IsWithin : FreeListAllocator → Place → Type 0
  IsWithin a p =
      (low + header_size ≤ p.address)
      × (p.address + p.size ≤ high)
      × IsClear (p.address - header_size) (p.address + p.size) a.free_list

  -- Whatever the clients of a new allocator do, with requests of any size that do not wrap, returned
  -- blocks and writes to the blocks that they hold: the blocks held lie in the buffer, behind their
  -- headers, no two of them overlap, none has a byte in a free block, and the free blocks are in
  -- order. The buffer was allocated and lies in the address space.
  pub Runs-AreApart :
      (a : FreeListAllocator) (ps : List Place)
      → Runs a ps
      → AreApart ps × All (IsWithin a) ps × Ordered low high a.free_list
  unfolding IsWithin IsKept
  Runs-AreApart a ps r =
      let s = Runs-IsSound r in
      (
        s.apart,
        All-map
            (λ p k. (
              omega (arith, k.0.ends, k.0.above),
              k.0.below,
              All-map (λ c e. elim e [ inl e' ↦ inl (omega (arith, k.0.ends)) | inr e' ↦ inr e' ])
                  a.free_list k.0.clear,
            ))
            ps s.kept,
        s.ordered,
      )
