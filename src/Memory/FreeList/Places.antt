-- ===== src/Memory/FreeList/Places.antt =====
-- The blocks that clients hold, as a list from which blocks are taken.
use tge_core.Prelude.{ℕ, ◌+◌, ◌-◌, ◌≤◌, ◌⊎◌, inl, inr, List, [], ◌∷◌, Option, none, some, All}
use tge_core.Memory.FreeList.{FreeListAllocator, header_size}

-- A block that a client holds: its `size` bytes are at `address`, behind a padding and a header.
pub record Place : Type 0 where
  pub start : ℕ
  pub padding : ℕ
  pub size : ℕ
  pub address : ℕ

-- `Without ps p rest`: `rest` is `ps` without one `p`.
pub data Without : List Place → Place → List Place → Type 0 where
  here : {p : Place} {ps : List Place} → Without (p ∷ ps) p ps
  there : {q p : Place} {ps rest : List Place} → Without ps p rest → Without (q ∷ ps) p (q ∷ rest)

-- The place behind a pointer, from the padding in its header.
abbrev pub place_at : FreeListAllocator → ℕ → ℕ → Place
place_at a size address =
    let padding = a.memory (address - 8) in
    record {
      start = address - header_size - padding;
      padding = padding;
      size = size;
      address = address;
    }

abbrev pub held_with : FreeListAllocator → ℕ → Option ℕ → List Place → List Place
held_with a size none ps = ps
held_with a size (some address) ps = place_at a size address ∷ ps

abbrev pub AreBeside : Place → Place → Type 0
AreBeside p q = (p.address + p.size ≤ q.start) ⊎ (q.address + q.size ≤ p.start)

abbrev pub AreApart : List Place → Type 0
AreApart [] = Unit
AreApart (p ∷ ps) = All (AreBeside p) ps × AreApart ps

module _ (Q : Place → Type 0) where
  pub Without-All :
      {ps rest : List Place} {p : Place} → Without ps p rest → All Q ps → Q p × All Q rest
  Without-All here h = h
  Without-All (there w) h = let (first, others) = Without-All w h.1 in (first, (h.0, others))

  pub Without-join :
      {ps rest : List Place} {p : Place} → Without ps p rest → Q p → All Q rest → All Q ps
  Without-join here q h = (q, h)
  Without-join (there w) q h = (h.0, Without-join w q h.1)

swap : (p q : Place) → AreBeside q p → AreBeside p q
swap p q (inl h) = inr h
swap p q (inr h) = inl h

-- What `All` and `AreApart` say of the place that is taken out, and of the rest.
pub Without-AreApart :
    {ps rest : List Place} {p : Place}
    → Without ps p rest
    → AreApart ps
    → All (AreBeside p) rest × AreApart rest
Without-AreApart here h = h
Without-AreApart {p = p} (there {q = q} w) (h, apart) =
    let (one, others) = Without-All (AreBeside q) w h in
    let (beside, rest) = Without-AreApart w apart in ((swap p q one, beside), (others, rest))
