-- ===== src/Memory/Pool/Reuse.antt =====
-- A pool and its clients: no object is handed out twice, and none is lost.
use Prim.Native.Nat.{max}
use mathlib.Core.List.{
  Nodup, Nodup-cons, Nodup-nil, Nodup-append, mem-cons_self, mem-append_left, perm_middle,
}
use mathlib.Core.List.Perm
use mathlib.Core.HLevel.{⊥_prop}
use mathlib.Core.Logic.{∥∥₁_elim, ∥∥₁_map}
use tge_core.Prelude.{
  ℕ, zero, suc, ◌+◌, ◌*◌, ◌≤◌, ◌<◌, ◌≡◌, refl, sym, subst, ap, ◌∙◌, List, [], ◌∷◌, ◌++◌, Option,
  none, some, arith, Mem, Perm, All, All-map, All-pick, length, length-perm, length-append, ==_refl,
}
use tge_core.Prelude.Words.{u64_mod}
use tge_core.Memory.Pool.{
  PoolAllocator, write, slot, link, create, allocate, deallocate, get_available_objects, node_size,
}
use tge_core.Memory.Pool.Chain.{Chain, Chain-write, slots, slot_lem, link-Chain, count_free-Chain}

-- The pool, and the objects that its clients hold.
pub record Shared : Type 0 where
  pub pool : PoolAllocator
  pub held : List ℕ

-- What the clients may do: ask for an object, give one back that they hold, and write to one that
-- they hold.
pub data Step : Shared → Shared → Type 0 where
  allocates :
      (s : Shared) (size alignment p : ℕ)
      → (allocate s.pool size alignment).1 ≡ some p
      → Step s (record { pool = (allocate s.pool size alignment).0; held = p ∷ s.held })
  refused :
      (s : Shared) (size alignment : ℕ)
      → (allocate s.pool size alignment).1 ≡ none
      → Step s (record s { pool = (allocate s.pool size alignment).0 })
  gives_back :
      (s : Shared) (p : ℕ) (rest : List ℕ)
      → Perm s.held (p ∷ rest)
      → Step s (record { pool = deallocate s.pool (some p); held = rest })
  writes :
      (s : Shared) (pool : PoolAllocator) (p : ℕ) (v : Option ℕ)
      → Mem p s.held
      → pool ≡ record (s.pool) { memory = write s.pool.memory p v }
      → Step s (record s { pool = pool })

pub data Reach (s : Shared) : Shared → Type 0 where
  here : Reach s s
  next : {t u : Shared} → Reach s t → Step t u → Reach s u

-- The objects of the pool are those held and those on the free list.
pub record Inv (objects : List ℕ) (s : Shared) : Type 0 where
  pub free : List ℕ
  pub chain : Chain s.pool.memory s.pool.free_list free
  pub parts : Perm (s.held ++ free) objects
  pub count : s.pool.object_count ≡ length objects

module _ (objects : List ℕ) (distinct : Nodup objects) where
  -- A held object is not on the free list.
  not_free : (s : Shared) (v : Inv objects s) (p : ℕ) → Mem p s.held → ¬ Mem p v.free
  not_free s v p m f = (Nodup-append.0 (Perm.nodup (Perm.symm v.parts) distinct)).2 p m f

  allocates-Inv :
      (s : Shared) (size alignment p : ℕ)
      → (allocate s.pool size alignment).1 ≡ some p
      → Inv objects s
      → Inv objects (record { pool = (allocate s.pool size alignment).0; held = p ∷ s.held })
  unfolding allocate
  allocates-Inv s size alignment p e v = take v.free v.chain v.parts
    where
      take :
          (free : List ℕ)
          → Chain s.pool.memory s.pool.free_list free
          → Perm (s.held ++ free) objects
          → Inv objects (record { pool = (allocate s.pool size alignment).0; held = p ∷ s.held })
      take [] c h = absurd (ground arith)
      take (x ∷ free) c h = record {
        free = free;
        chain = ground (arith, c.1);
        parts =
            Perm.trans
              (subst (λ y. Perm (p ∷ (s.held ++ free)) (y ∷ (s.held ++ free))) (ground arith)
                (Perm.refl _))
              (Perm.trans (Perm.symm (perm_middle s.held free)) h);
        count = ground (arith, v.count);
      }

  refused-Inv :
      (s : Shared) (size alignment : ℕ)
      → (allocate s.pool size alignment).1 ≡ none
      → Inv objects s
      → Inv objects (record s { pool = (allocate s.pool size alignment).0 })
  unfolding allocate
  refused-Inv s size alignment e v =
      let same : (allocate s.pool size alignment).0 ≡ s.pool = ground arith in
      subst (λ q. Inv objects (record s { pool = q })) (sym same) v

  gives_back-Inv :
      (s : Shared) (p : ℕ) (rest : List ℕ)
      → Perm s.held (p ∷ rest)
      → Inv objects s
      → Inv objects (record { pool = deallocate s.pool (some p); held = rest })
  unfolding deallocate
  gives_back-Inv s p rest h v = record {
    free = p ∷ v.free;
    chain = (
      refl,
      subst (λ next. Chain (write s.pool.memory p s.pool.free_list) next v.free) (rw (==_refl p))
          (Chain-write s.pool.memory s.pool.free_list v.free p s.pool.free_list
            (not_free s v p ((Perm.mem_iff h).1 mem-cons_self)) v.chain),
    );
    parts =
        Perm.trans (perm_middle rest v.free)
          (Perm.trans (Perm.append (Perm.symm h) (Perm.refl v.free)) v.parts);
    count = v.count;
  }

  writes-Inv :
      (s : Shared) (p : ℕ) (value : Option ℕ)
      → Mem p s.held
      → Inv objects s
      → Inv objects (record s { pool = record (s.pool) { memory = write s.pool.memory p value } })
  writes-Inv s p value m v = record {
    free = v.free;
    chain = Chain-write s.pool.memory s.pool.free_list v.free p value (not_free s v p m) v.chain;
    parts = v.parts;
    count = v.count;
  }

  Step-Inv : {s t : Shared} → Step s t → Inv objects s → Inv objects t
  Step-Inv (allocates s size alignment p e) v = allocates-Inv s size alignment p e v
  Step-Inv (refused s size alignment e) v = refused-Inv s size alignment e v
  Step-Inv (gives_back s p rest h) v = gives_back-Inv s p rest h v
  Step-Inv (writes s pool p value m e) v =
      subst (λ q. Inv objects (record s { pool = q })) (sym e) (writes-Inv s p value m v)

  Reach-Inv : {s t : Shared} → Inv objects s → Reach s t → Inv objects t
  Reach-Inv v here = v
  Reach-Inv v (next r st) = Step-Inv st (Reach-Inv v r)

-- An object of the pool: a slot of the buffer.
abbrev pub IsObject : ℕ → ℕ → ℕ → ℕ → Type 0
IsObject buffer size count p = (k : ℕ) × (k < count) × (p ≡ buffer + k * size)

slots-IsObject :
    (buffer size count rounds i : ℕ)
    → i + rounds ≡ count
    → buffer + i * size + rounds * size ≤ u64_mod
    → 0 < size
    → All (λ p. IsObject buffer size count p × (buffer + i * size ≤ p)) (slots buffer size i rounds)
slots-IsObject buffer size count zero i e fits pos = tt
slots-IsObject buffer size count (suc rounds) i e fits pos =
    let here' = slot_lem buffer size i (omega arith) in
    let rest = slots-IsObject buffer size count rounds (i + 1) (omega arith) (omega arith) pos in
    (((i, omega arith, here'), omega arith), All-map (λ p h. (h.0, omega arith)) _ rest)

slots-Nodup :
    (buffer size rounds i : ℕ)
    → buffer + i * size + rounds * size ≤ u64_mod
    → 0 < size
    → Nodup (slots buffer size i rounds)
slots-Nodup buffer size zero i fits pos = Nodup-nil
slots-Nodup buffer size (suc rounds) i fits pos = Nodup-cons.1 (
  λ m.
      let above =
        slots-IsObject buffer size (i + 1 + rounds) rounds (i + 1) refl (omega arith) pos in
      ∥∥₁_elim (All-pick _ _ above m) ⊥_prop λ h. omega (arith, h.1, slot_lem buffer size i),
  slots-Nodup buffer size rounds (i + 1) (omega arith) pos,
)

length-slots : (buffer size rounds i : ℕ) → length (slots buffer size i rounds) ≡ rounds
length-slots buffer size zero i = refl
length-slots buffer size (suc rounds) i = ap suc (length-slots buffer size rounds (i + 1))

create-memory :
    (malloc : ℕ → Option ℕ) (memory : ℕ → Option ℕ) (size count buffer : ℕ)
    → (create malloc memory size count).buffer ≡ some buffer
    → (create malloc memory size count).memory
      ≡ link buffer (max size node_size) count count 0 memory
unfolding create
create-memory malloc memory size count buffer e = rw (e, create)

create-Inv :
    (malloc : ℕ → Option ℕ) (memory : ℕ → Option ℕ) (size count buffer : ℕ)
    → 0 < count
    → buffer + count * max size node_size ≤ u64_mod
    → (create malloc memory size count).buffer ≡ some buffer
    → Inv
        (slots buffer (max size node_size) 0 count)
        (record { pool = create malloc memory size count; held = [] })
unfolding create
create-Inv malloc memory size zero buffer pos fits e = absurd (omega arith)
create-Inv malloc memory size (suc count) buffer pos fits e =
    let first : buffer ≡ slot buffer (max size node_size) 0 = omega arith in
    let linked =
      link-Chain buffer (max size node_size) (suc count) count 0 memory (omega arith) (omega arith)
        (omega arith) in
    record {
      free = slots buffer (max size node_size) 0 (suc count);
      chain =
          subst
            (λ m.
              Chain m (create malloc memory size (suc count)).free_list
                (slots buffer (max size node_size) 0 (suc count)))
            (sym (create-memory malloc memory size (suc count) buffer e))
            (e ∙ ap some first, linked.1);
      parts = Perm.refl _;
      count = sym (length-slots buffer (max size node_size) (suc count) 0);
    }

-- Whatever the clients of a new pool do, with requests of any size, returned objects and writes to
-- the objects that they hold: the objects held are different objects of the buffer, one for each
-- pointer, and `GetAvailableObjects` returns how many of the pool's objects are left. The buffer
-- was allocated, holds at least one object and lies in the address space.
pub reuse :
    (malloc : ℕ → Option ℕ) (memory : ℕ → Option ℕ) (size count buffer : ℕ) (s : Shared)
    → 0 < count
    → buffer + count * max size node_size ≤ u64_mod
    → (create malloc memory size count).buffer ≡ some buffer
    → Reach (record { pool = create malloc memory size count; held = [] }) s
    → Nodup s.held
      × ((p : ℕ) → Mem p s.held → ∥ IsObject buffer (max size node_size) count p ∥₁)
      × ((n : ℕ) × (get_available_objects s.pool ≡ some n) × (n + length s.held ≡ count))
unfolding get_available_objects
reuse malloc memory size count buffer s pos fits e r = (
  (Nodup-append.0 whole).0,
  λ p m.
      ∥∥₁_map
        (All-pick _ _
          (slots-IsObject buffer (max size node_size) count count 0 (omega arith) (omega arith)
            (omega arith))
          ((Perm.mem_iff v.parts).0 (mem-append_left v.free m)))
        (λ h. h.0),
  (
    0 + length v.free,
    count_free-Chain s.pool.object_count s.pool.memory s.pool.free_list v.free 0
        (omega (arith, total, v.count, length-slots buffer (max size node_size) count 0)) v.chain,
    omega (arith, total),
  ),
)
  where
    objects : List ℕ
    objects = slots buffer (max size node_size) 0 count

    distinct : Nodup objects
    distinct = slots-Nodup buffer (max size node_size) count 0 (omega arith) (omega arith)

    v : Inv objects s
    v = Reach-Inv objects distinct (create-Inv malloc memory size count buffer pos fits e) r

    whole : Nodup (s.held ++ v.free)
    whole = Perm.nodup (Perm.symm v.parts) distinct

    total : length s.held + length v.free ≡ count
    total = omega (
      arith,
      length-append s.held v.free,
      length-perm v.parts,
      length-slots buffer (max size node_size) count 0,
    )
