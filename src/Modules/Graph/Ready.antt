-- ===== src/Modules/Graph/Ready.antt =====
-- The scan for the next ready module.
use tge_core.Prelude.{
  ℕ, zero, suc, ◌<◌, ◌≡◌, refl, ◌≢◌, ◌⊎◌, inl, inr, List, Option, some, arith, get_or, ◌==◌,
  Bool-cases, ==_iff, subst,
}
use tge_core.Modules.Graph.{next_ready, emitted}

-- The lowest index below a bound that holds a zero.
abbrev pub IsFirstReady : List ℕ → ℕ → ℕ → Type 0
IsFirstReady pending bound k =
    (k < bound) × (get_or pending k emitted ≡ 0) × ((j : ℕ) → j < k → get_or pending j emitted ≢ 0)

abbrev pub NoneReady : List ℕ → ℕ → Type 0
NoneReady pending bound = (j : ℕ) → j < bound → get_or pending j emitted ≢ 0

NoneReady-suc :
    (i : ℕ) (pending : List ℕ)
    → get_or pending i emitted ≢ 0
    → NoneReady pending i
    → NoneReady pending (suc i)
NoneReady-suc i pending h below j lt e = elim (Bool-cases (j == i)) [
  | inl same ↦ h (subst (λ k. get_or pending k emitted ≡ 0) ((==_iff j i).0 same) e)
  | inr other ↦ below j (ground arith) e
]

-- The scan ends with the lowest ready index, or keeps what it started with if there is none.
pub next_ready_cases :
    (i : ℕ) (pending : List ℕ) (next : Option ℕ)
    → (NoneReady pending i × (next_ready i pending next ≡ next))
      ⊎ ((k : ℕ) × IsFirstReady pending i k × (next_ready i pending next ≡ some k))
unfolding next_ready
next_ready_cases zero pending next = inl (λ j lt. elim lt [ ], refl)
next_ready_cases (suc i) pending next = elim (Bool-cases (get_or pending i emitted == 0)) [
  | inl ready ↦
      rw (ready, next_ready)
        (elim (next_ready_cases i pending (some i)) [
          | inl (below, e) ↦
              inr (i, (omega arith, (==_iff (get_or pending i emitted) 0).0 ready, below), e)
          | inr (k, (lt, z, below), e) ↦ inr (k, (omega arith, z, below), e)
        ])
  | inr busy ↦
      rw (busy, next_ready)
        (elim (next_ready_cases i pending next) [
          | inl (below, e) ↦ inl (NoneReady-suc i pending (ground arith) below, e)
          | inr (k, (lt, z, below), e) ↦ inr (k, (omega arith, z, below), e)
        ])
]
