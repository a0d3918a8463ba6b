-- ===== src/Modules/Graph/Counting.antt =====
-- Counts of dependencies: what a module waits for, and the modules that it depends on.
use tge_core.Prelude.{
  ℕ, ◌+◌, ◌%◌, ◌≤◌, ◌<◌, ◌≡◌, refl, Bool, true, false, ◌&&◌, ◌||◌, ◌==◌, List, [], ◌∷◌, Option,
  none, some, arith, length, any, count_if, All, Distinct, count_if_zero, if◌then◌else◌, Bool-cases,
  inl, inr, All-of_All, ◌≢◌,
}
use mathlib.Core.Path.{fun_ext}
use tge_core.Prelude.Words.{u32_mod}
use tge_core.Modules.{Module, Dependency}
use tge_core.Modules.Graph.{
  points_to, find_loaded, is_found, is_ordering_dependency, depends_from, depends_on, blocks,
  waiting_from,
}

-- The dependency is an ordering one on this module.
abbrev pub orders_after : Module → Dependency → Bool
orders_after d x = is_ordering_dependency x.kind && points_to x.module_id d.id

depends_from-any :
    (b : Bool) (d : Module) (xs : List Dependency)
    → depends_from b d xs ≡ (b || any (orders_after d) xs)
unfolding depends_from
depends_from-any true d [] = refl
depends_from-any false d [] = refl
depends_from-any b d (x ∷ xs) = ground (arith, depends_from-any (b || (orders_after d x)) d xs)

pub depends_on-any : (m d : Module) → depends_on m d ≡ any (orders_after d) m.dependencies
unfolding depends_on
depends_on-any m d = depends_from-any false d m.dependencies

-- With fewer than 2 ^ 32 dependencies the counter does not wrap.
pub waiting_from-count :
    (ms : List Module) (w : ℕ) (ds : List Dependency)
    → w + length ds < u32_mod
    → waiting_from ms w ds ≡ w + count_if (blocks ms) ds
unfolding waiting_from
waiting_from-count ms w [] h = omega arith
waiting_from-count ms w (d ∷ ds) h =
    ground (arith, waiting_from-count ms w ds, waiting_from-count ms ((w + 1) % u32_mod) ds)

none_elsewhere :
    (a : ℕ) (x : Module) (ms : List Module)
    → All (λ m. m.id ≢ x.id) ms
    → a ≡ x.id
    → count_if (λ m. a == m.id) ms ≡ 0
none_elsewhere a x [] h e = refl
none_elsewhere a x (m ∷ ms) h e = ground (arith, none_elsewhere a x ms h.1 e)

-- A pointer names at most one of the modules, and none if it is not found.
points_to-count :
    (p : Option ℕ) (ms : List Module)
    → Distinct (λ m. m.id) ms
    → count_if (λ m. points_to p m.id) ms ≡ (if is_found (find_loaded ms p) then 1 else 0)
unfolding find_loaded
points_to-count none [] u = refl
points_to-count (some a) [] u = refl
points_to-count none (x ∷ ms) u = points_to-count none ms u.1
points_to-count (some a) (x ∷ ms) u =
    ground (arith, points_to-count (some a) ms u.1, none_elsewhere a x ms u.0)

-- As many modules as one dependency orders after.
orders_after-count :
    (x : Dependency) (ms : List Module)
    → Distinct (λ m. m.id) ms
    → count_if (λ d. orders_after d x) ms ≡ (if blocks ms x then 1 else 0)
orders_after-count x ms u = elim (Bool-cases (is_ordering_dependency x.kind)) [
  | inl e ↦ rw e (points_to-count x.module_id ms u)
  | inr e ↦ rw e (count_if_zero _ ms (All-of_All (λ d. refl) ms))
]

count_if-or :
    (p q : Module → Bool) (ms : List Module)
    → count_if (λ d. p d || q d) ms + count_if (λ d. p d && q d) ms ≡ count_if p ms + count_if q ms
count_if-or p q [] = omega arith
count_if-or p q (m ∷ ms) = ground (arith, count_if-or p q ms)

module _ (ms : List Module) (unique : Distinct (λ m. m.id) ms) where
  -- The modules that some entry of a list of dependencies orders after.
  abbrev named : List Dependency → ℕ
  named xs = count_if (λ d. any (orders_after d) xs) ms

  -- Those that the first entry and a later one name.
  abbrev pub overlap : Dependency → List Dependency → ℕ
  overlap x xs = count_if (λ d. orders_after d x && any (orders_after d) xs) ms

  named-cons :
      (x : Dependency) (xs : List Dependency)
      → named (x ∷ xs) + overlap x xs ≡ (if blocks ms x then 1 else 0) + named xs
  named-cons x xs = omega (
    arith,
    count_if-or (λ d. orders_after d x) (λ d. any (orders_after d) xs) ms,
    orders_after-count x ms unique,
  )

  -- How often an entry names a module that a later one names too.
  abbrev pub repeats : List Dependency → ℕ
  repeats [] = 0
  repeats (x ∷ xs) = overlap x xs + repeats xs

  named-repeats : (xs : List Dependency) → named xs + repeats xs ≡ count_if (blocks ms) xs
  named-repeats [] = omega (arith, count_if_zero (λ _. false) ms (All-of_All (λ d. refl) ms))
  named-repeats (x ∷ xs) = ground (arith, named-cons x xs, named-repeats xs)

  -- The dependencies that block a module are the modules that it depends on, and the repeats.
  pub depends_on-repeats :
      (m : Module)
      → count_if (depends_on m) ms + repeats m.dependencies ≡ count_if (blocks ms) m.dependencies
  depends_on-repeats m = rw (fun_ext (depends_on-any m)) (named-repeats m.dependencies)

-- A module depends on at most as many modules as it has dependencies that block it.
pub depends_on-count :
    (m : Module) (ms : List Module)
    → Distinct (λ m. m.id) ms
    → count_if (depends_on m) ms ≤ count_if (blocks ms) m.dependencies
depends_on-count m ms u = omega (arith, depends_on-repeats ms u m)
