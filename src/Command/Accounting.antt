-- ===== src/Command/Accounting.antt =====
-- What the memory tracker knows of the groups.
use tge_core.Prelude.{
  ℕ, suc, ◌+◌, ◌*◌, ◌%◌, ◌<◌, ◌==◌, ◌≡◌, refl, subst, inl, inr, List, [], ◌∷◌, ◌++◌, arith,
  Bool-cases, Option-cases, Option, none, some, length, length-append,
}
use tge_core.Prelude.Words.{u64_mod}
use tge_core.Memory.Tracking.{
  Tracker, Stats, get_stats, current_usage_of, record_allocation, record_deallocation,
}
use tge_core.Memory.Tracking.Entries.{track_allocation-get_stats, track_deallocation-get_stats}
use tge_core.Command.{
  Group, Registry, erase_group, create_group, destroy_group, untrack_groups, terminate,
}

-- The statistics of a category are words, and its usage is that of so many groups.
pub record Counts (size n : ℕ) (s : Stats) : Type 0 where
  pub words : (s.allocated < u64_mod) × (s.deallocated < u64_mod)
  pub usage : current_usage_of s ≡ (n * size) % u64_mod

record_deallocation-Counts :
    (size n : ℕ) (s : Stats) → Counts size (suc n) s → Counts size n (record_deallocation s size)
unfolding record_deallocation
record_deallocation-Counts size n s v =
    let more : suc n * size ≡ n * size + size = omega arith in
    record { words = omega (arith, v.words); usage = omega (arith, v.words, v.usage, more) }

record_allocation-Counts :
    (size n : ℕ) (s : Stats) → Counts size n s → Counts size (suc n) (record_allocation s size)
unfolding record_allocation
record_allocation-Counts size n s v =
    let more : suc n * size ≡ n * size + size = omega arith in
    record { words = ground (arith, v.words); usage = ground (arith, v.words, v.usage, more) }

-- The category of the groups holds exactly the groups of the registry.
pub record Accounted (category size : ℕ) (r : Registry) : Type 0 where
  pub stats : Stats
  pub found : get_stats r.tracker category ≡ some stats
  pub counts : Counts size (length r.groups) stats

length-erase_group :
    (gs rest : List Group) (address : ℕ)
    → erase_group gs address ≡ some rest
    → length gs ≡ suc (length rest)
unfolding erase_group
length-erase_group [] rest address e = cc
length-erase_group (g ∷ gs) rest address e = elim (Bool-cases (g.address == address)) [
  | inl here ↦ ground (arith, here)
  | inr there ↦ elim (Option-cases (erase_group gs address)) [
    | inl absent ↦ absurd (ground arith)
    | inr (rest', found) ↦ ground (arith, length-erase_group gs rest' address found)
  ]
]

module _ (category size : ℕ) where
  -- Creating a group succeeds and keeps the accounts.
  create_group-Accounted :
      (r : Registry) (address : ℕ) (name : List ℕ) (color : ℕ)
      → Accounted category size r
      → (r' : Registry) × (create_group category size r address name color ≡ some r')
        × Accounted category size r'
  unfolding create_group
  create_group-Accounted r address name color v =
      let (t', e, found) = track_allocation-get_stats r.tracker category size v.stats v.found in
      (
        record { groups = r.groups ++ new_group address name color ∷ []; tracker = t' },
        rw (e, create_group) refl,
        record {
          stats = record_allocation v.stats size;
          found = found;
          counts =
              subst (λ n. Counts size n (record_allocation v.stats size))
                (omega (arith, length-append r.groups (new_group address name color ∷ [])))
                (record_allocation-Counts size (length r.groups) v.stats v.counts);
        },
      )
    where
      new_group : ℕ → List ℕ → ℕ → Group
      new_group address name color = record {
        address = address;
        name = name;
        color = color;
        commands = [];
      }

  destroy_group-Accounted :
      (r : Registry) (address : ℕ)
      → Accounted category size r
      → (r' : Registry) × (destroy_group category size r address ≡ some r')
        × Accounted category size r'
  unfolding destroy_group
  destroy_group-Accounted r address v = elim (Option-cases (erase_group r.groups address)) [
    | inl absent ↦ (r, rw (absent, destroy_group) refl, v)
    | inr (rest, found) ↦
        let (t', e, after) = track_deallocation-get_stats r.tracker category size v.stats v.found in
        (
          record { groups = rest; tracker = t' },
          rw (found, destroy_group, e) refl,
          record {
            stats = record_deallocation v.stats size;
            found = after;
            counts = record_deallocation-Counts size (length rest) v.stats (
                subst (λ n. Counts size n v.stats) (length-erase_group r.groups rest address found)
                  v.counts);
          },
        )
  ]

  untrack_groups-Counts :
      (gs : List Group) (t : Tracker) (s : Stats)
      → get_stats t category ≡ some s
      → Counts size (length gs) s
      → (t' : Tracker) × (untrack_groups category size gs t ≡ some t')
        × Accounted category size (record { groups = []; tracker = t' })
  unfolding untrack_groups
  untrack_groups-Counts [] t s e v = (t, refl, record { stats = s; found = e; counts = v })
  untrack_groups-Counts (g ∷ gs) t s e v =
      let (t', step, after) = track_deallocation-get_stats t category size s e in
      rw (step, untrack_groups)
        (untrack_groups-Counts gs t' (record_deallocation s size) after
          (record_deallocation-Counts size (length gs) s v))

  -- `Terminate` returns the registry empty, with nothing in the account.
  terminate-Accounted :
      (r : Registry)
      → Accounted category size r
      → (r' : Registry) × (terminate category size r ≡ some r')
        × (r'.groups ≡ [])
        × Accounted category size r'
  unfolding terminate
  terminate-Accounted r v =
      let (t', e, after) = untrack_groups-Counts r.groups r.tracker v.stats v.found v.counts in
      (record { groups = []; tracker = t' }, rw e refl, refl, after)

pub data Operation : Type 0 where
  creates : ℕ → List ℕ → ℕ → Operation
  destroys : ℕ → Operation
  terminates : Operation

module _ (category size : ℕ) where
  -- One operation, and a sequence of them.
  abbrev pub perform : Operation → Registry → Option Registry
  perform (creates address name color) r = create_group category size r address name color
  perform (destroys address) r = destroy_group category size r address
  perform terminates r = terminate category size r

  pub perform_all : List Operation → Registry → Option Registry
  perform_all [] r = some r
  perform_all (o ∷ os) r = elim (perform o r) [ none ↦ none | some r' ↦ perform_all os r' ]

  perform-Accounted :
      (o : Operation) (r : Registry)
      → Accounted category size r
      → (r' : Registry) × (perform o r ≡ some r') × Accounted category size r'
  perform-Accounted (creates address name color) r v =
      create_group-Accounted category size r address name color v
  perform-Accounted (destroys address) r v = destroy_group-Accounted category size r address v
  perform-Accounted terminates r v =
      let (r', e, _, after) = terminate-Accounted category size r v in (r', e, after)

-- Any sequence of creating groups, destroying groups by pointers of any origin and terminating the
-- registry runs to its end and keeps the accounts: the usage of the groups' category in the memory
-- tracker is the number of groups in the registry times their size, on 64 bits. The account was
-- right at the start.
pub perform_all-Accounted :
    (category size : ℕ) (os : List Operation) (r : Registry)
    → Accounted category size r
    → (r' : Registry) × (perform_all category size os r ≡ some r') × Accounted category size r'
unfolding perform_all
perform_all-Accounted category size [] r v = (r, refl, v)
perform_all-Accounted category size (o ∷ os) r v =
    let (r', step, after) = perform-Accounted category size o r v in
    rw (step, perform_all) (perform_all-Accounted category size os r' after)
