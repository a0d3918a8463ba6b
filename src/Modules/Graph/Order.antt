-- ===== src/Modules/Graph/Order.antt =====
-- What `Resolve` promises of the order that it computes.
use mathlib.Core.List.{append-nil}
use mathlib.Core.List.Perm
use mathlib.Core.Option
use tge_core.Prelude.{
  ℕ, ◌<◌, ◌≡◌, refl, subst, inr, true, false, List, [], ◌∷◌, ◌++◌, some, arith, length, Distinct,
  Perm, All, count_if-le-length, nil_of_length, length-perm, length-append,
}
use tge_core.Modules.{Module, ModuleIds}
use tge_core.Modules.Graph.{
  emitted, blocks, unplaced, count_waiting, place_all, resolve, validate, Verdict, report,
  place_all,
}
use tge_core.Modules.Graph.Counting.{waiting_from-count}
use tge_core.Modules.Graph.Invariant.{All₂, Waits}
use tge_core.Modules.Graph.Rounds.{Inv, IsOrdered, Ending, place_all-Ending}

-- The counters of pending dependencies do not reach the mark of a placed module.
abbrev pub FitsCounter : List Module → Type 0
FitsCounter ms = All (λ m. length m.dependencies < emitted) ms

count_waiting-Waits :
    (all ms : List Module) → FitsCounter ms → All₂ (Waits all []) ms (count_waiting all ms)
unfolding count_waiting
count_waiting-Waits all [] h = tt
count_waiting-Waits all (m ∷ ms) h = (
  inr (
    omega (
      arith,
      waiting_from-count all 0 m.dependencies,
      count_if-le-length (blocks all) m.dependencies,
    ),
    omega (arith, waiting_from-count all 0 m.dependencies),
  ),
  count_waiting-Waits all ms h.1,
)

unplaced-all : (all ms : List Module) → FitsCounter ms → unplaced ms (count_waiting all ms) ≡ ms
unfolding unplaced count_waiting
unplaced-all all [] h = refl
unplaced-all all (m ∷ ms) h = ground (
  arith,
  unplaced-all all ms h.1,
  waiting_from-count all 0 m.dependencies,
  count_if-le-length (blocks all) m.dependencies,
)

abbrev pub no_errors : Verdict
no_errors = record { valid = true; log = [] }

abbrev pub verdict : ModuleIds → List Module → Verdict
verdict ids ms = validate ids ms ms no_errors

module _ (ids : ModuleIds) (ms : List Module) (unique : Distinct (λ m. m.id) ms)
    (fits : FitsCounter ms) where
  start-Inv : Inv ms [] (count_waiting ms ms)
  start-Inv = record {
    waits = count_waiting-Waits ms ms fits;
    parts = rw (unplaced-all ms ms fits) (Perm.refl ms);
    ordered = λ xs ys m d e. absurd (nil-ne-split xs ys m e);
    covered = tt;
  }
    where
      nil-ne-split : (xs ys : List Module) (m : Module) → [] ≡ xs ++ m ∷ ys → ⊥
      nil-ne-split [] ys m e = cc
      nil-ne-split (x ∷ xs) ys m e = cc

  pub placing : Ending ms unique (place_all ms (length ms) [] (count_waiting ms ms))
  placing = place_all-Ending ms unique (length ms) [] (count_waiting ms ms) (omega arith) start-Inv

-- The order of a loop that placed every module.
abbrev pub IsInitOrder : List Module → List Module → Type 0
IsInitOrder ms order = Perm order ms × IsOrdered ms order

pub complete-IsInitOrder :
    (ms order : List Module) (pending : List ℕ)
    → Inv ms order pending
    → length order ≡ length ms
    → IsInitOrder ms order
complete-IsInitOrder ms order pending v e = (
  subst (λ l. Perm l ms) (rw (nil_of_length left none_left) (append-nil order)) v.parts,
  v.ordered,
)
  where
    left : List Module
    left = unplaced ms pending

    none_left : length left ≡ 0
    none_left = omega (arith, length-perm v.parts, length-append order left)

pub resolve_invalid :
    (ids : ModuleIds) (ms : List Module)
    → (verdict ids ms).valid ≡ false
    → resolve ids ms
      ≡ some
          (record { graph = record { order = [] }; resolved = false; log = (verdict ids ms).log })
unfolding resolve
resolve_invalid ids ms e = rw e

pub resolve_valid :
    (ids : ModuleIds) (ms : List Module)
    → (verdict ids ms).valid ≡ true
    → resolve ids ms
      ≡ Option.map (report (verdict ids ms)) (place_all ms (length ms) [] (count_waiting ms ms))
unfolding resolve
resolve_valid ids ms e = rw e
