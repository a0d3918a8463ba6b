-- ===== src/Memory/Pool/Chain.antt =====
-- The free list as a list of addresses.
use mathlib.Core.List.{mem-cons}
use mathlib.Core.Logic.Or
use tge_core.Prelude.{
  ℕ, zero, suc, ◌+◌, ◌-◌, ◌*◌, ◌≤◌, ◌<◌, ◌≡◌, ◌≢◌, refl, List, [], ◌∷◌, Option, none, some, arith,
  Mem, length, ltb, if◌then◌else◌, ne→==_false, ==_refl, sym, subst, ◌∙◌,
}
use tge_core.Prelude.Words.{u64_mod}
use tge_core.Memory.Pool.{write, slot, link, count_free}

-- The chain of nodes from a head on.
abbrev pub Chain : (ℕ → Option ℕ) → Option ℕ → List ℕ → Type 0
Chain memory head [] = head ≡ none
Chain memory head (node ∷ nodes) = (head ≡ some node) × Chain memory (memory node) nodes

-- A write outside the chain leaves it.
pub Chain-write :
    (memory : ℕ → Option ℕ) (head : Option ℕ) (nodes : List ℕ) (node : ℕ) (next : Option ℕ)
    → ¬ Mem node nodes
    → Chain memory head nodes
    → Chain (write memory node next) head nodes
Chain-write memory head [] node next out c = c
Chain-write memory head (x ∷ nodes) node next out c = (
  c.0,
  rw (ne→==_false x node (λ e. out (mem-cons.1 (Or.inl (sym e)))))
      (Chain-write memory (memory x) nodes node next (λ m. out (mem-cons.1 (Or.inr m))) c.1),
)

pub count_free-Chain :
    (fuel : ℕ) (memory : ℕ → Option ℕ) (head : Option ℕ) (nodes : List ℕ) (count : ℕ)
    → length nodes ≤ fuel
    → Chain memory head nodes
    → count_free fuel memory head count ≡ some (count + length nodes)
unfolding count_free
count_free-Chain fuel memory none [] count h c = ground arith
count_free-Chain fuel memory (some x) [] count h c = cc
count_free-Chain fuel memory none (y ∷ nodes) count h c = cc (c.0)
count_free-Chain zero memory (some x) (y ∷ nodes) count h c = absurd (omega arith)
count_free-Chain (suc fuel) memory (some x) (y ∷ nodes) count h c =
    ground (arith, count_free-Chain fuel memory (memory x) nodes (count + 1))

-- The addresses of so many objects from object `i` on.
abbrev pub slots : ℕ → ℕ → ℕ → ℕ → List ℕ
slots buffer size i zero = []
slots buffer size i (suc rounds) = slot buffer size i ∷ slots buffer size (i + 1) rounds

pub slot_lem :
    (buffer size i : ℕ) → buffer + i * size < u64_mod → slot buffer size i ≡ buffer + i * size
slot_lem buffer size i h = omega arith

write_other :
    (memory : ℕ → Option ℕ) (node other : ℕ) (next : Option ℕ)
    → other ≢ node
    → write memory node next other ≡ memory other
write_other memory node other next h = rw (ne→==_false other node h)

write_self :
    (memory : ℕ → Option ℕ) (node : ℕ) (next : Option ℕ) → write memory node next node ≡ next
write_self memory node next = rw (==_refl node)

-- Linking objects from `i` on leaves what lies below them.
link_below :
    (buffer size count rounds i : ℕ) (memory : ℕ → Option ℕ) (node : ℕ)
    → 0 < size
    → buffer + i * size + rounds * size ≤ u64_mod
    → node < buffer + i * size
    → link buffer size count rounds i memory node ≡ memory node
unfolding link
link_below buffer size count zero i memory node pos fits below = refl
link_below buffer size count (suc rounds) i memory node pos fits below =
    link_below buffer size count rounds (i + 1) (write memory (slot buffer size i) next) node pos
      (omega arith) (omega arith)
    ∙ write_other memory (slot buffer size i) node next (λ e. omega (arith, slot_lem buffer size i))
  where
    next : Option ℕ
    next = if ltb i (count - 1) then some (slot buffer size (i + 1)) else none

-- The first object linked points where the loop says.
link_here :
    (buffer size count rounds i : ℕ) (memory : ℕ → Option ℕ)
    → 0 < size
    → buffer + i * size + suc rounds * size ≤ u64_mod
    → link buffer size count (suc rounds) i memory (slot buffer size i)
      ≡ (if ltb i (count - 1) then some (slot buffer size (i + 1)) else none)
unfolding link
link_here buffer size count rounds i memory pos fits =
    link_below buffer size count rounds (i + 1) (write memory (slot buffer size i) next)
      (slot buffer size i) pos (omega arith) (omega (arith, slot_lem buffer size i))
    ∙ write_self memory (slot buffer size i) next
  where
    next : Option ℕ
    next = if ltb i (count - 1) then some (slot buffer size (i + 1)) else none

pub link-Chain :
    (buffer size count rounds i : ℕ) (memory : ℕ → Option ℕ)
    → 0 < size
    → i + suc rounds ≡ count
    → buffer + i * size + suc rounds * size ≤ u64_mod
    → Chain
        (link buffer size count (suc rounds) i memory)
        (some (slot buffer size i))
        (slots buffer size i (suc rounds))
unfolding link
link-Chain buffer size count zero i memory pos e fits =
    (refl, ground (arith, link_here buffer size count zero i memory pos fits))
link-Chain buffer size count (suc rounds) i memory pos e fits =
    let next = if ltb i (count - 1) then some (slot buffer size (i + 1)) else none in
    let m = write memory (slot buffer size i) next in
    let rest = link-Chain buffer size count rounds (i + 1) m pos (omega arith) (omega arith) in
    let final = link buffer size count (suc rounds) (i + 1) m in
    let here : final (slot buffer size i) ≡ some (slot buffer size (i + 1)) =
      link_here buffer size count (suc rounds) i memory pos fits ∙ ground arith in
    (refl, subst (λ h. Chain final h (slots buffer size (i + 1) (suc rounds))) (sym here) rest)
