-- ===== src/Logging/Config/Masks.antt =====
-- The masks of the channels, and how they are set.
use tge_core.Prelude.{
  ℕ, ◌==◌, ◌≡◌, refl, sym, ap, ◌∙◌, true, false, List, [], ◌∷◌, Option, none, some, if◌then◌else◌,
  inl, inr, Bool-cases, arith,
}
use mathlib.Core.Option
use tge_core.Logging.{
  Log, find_log, set_level_of, set_level_mask, set_all_log_levels, get_log_level,
}

-- The mask of the channel that an id finds.
mask_at : List Log → ℕ → Option ℕ
mask_at [] id = none
mask_at (l ∷ ls) id = if l.id == id then some l.level_mask else mask_at ls id

mask_at-find_log :
    (ls : List Log) (id : ℕ) (l : Log) → find_log ls id ≡ some l → mask_at ls id ≡ some l.level_mask
unfolding mask_at find_log
mask_at-find_log [] id l e = absurd (ground arith)
mask_at-find_log (x ∷ xs) id l e = elim (Bool-cases (x.id == id)) [
  | inl same ↦
      rw (mask_at, same) (ap (Option.map (λ (y : Log). y.level_mask)) (sym (found same) ∙ e))
  | inr other ↦ rw (mask_at, other) (mask_at-find_log xs id l (ground arith))
]
  where
    found : (x.id == id) ≡ true → find_log (x ∷ xs) id ≡ some x
    found same = rw (find_log, same) refl

get_log_level-mask_at :
    (ls : List Log) (id mask : ℕ) → mask_at ls id ≡ some mask → get_log_level ls id ≡ mask
unfolding mask_at find_log get_log_level
get_log_level-mask_at [] id mask e = absurd (ground arith)
get_log_level-mask_at (x ∷ xs) id mask e = elim (Bool-cases (x.id == id)) [
  | inl same ↦ rw (get_log_level, find_log, same) (ground arith)
  | inr other ↦
      rw (get_log_level, find_log, other) (get_log_level-mask_at xs id mask (ground arith))
]

pub HasMask : List Log → ℕ → ℕ → Type 0
HasMask ls id mask = mask_at ls id ≡ some mask

pub set_all_log_levels-HasMask :
    (ls : List Log) (id old level : ℕ)
    → HasMask ls id old
    → HasMask (set_all_log_levels ls level) id level
unfolding HasMask mask_at set_all_log_levels set_level_mask
set_all_log_levels-HasMask [] id old level e = absurd (ground arith)
set_all_log_levels-HasMask (x ∷ xs) id old level e = elim (Bool-cases (x.id == id)) [
  | inl same ↦ rw same refl
  | inr other ↦ rw other (set_all_log_levels-HasMask xs id old level (ground arith))
]

pub set_level_of-HasMask :
    (ls : List Log) (id old other level : ℕ)
    → HasMask ls id old
    → HasMask (set_level_of ls other level).0 id (if other == id then level else old)
unfolding HasMask mask_at set_level_of set_level_mask
set_level_of-HasMask [] id old other level e = absurd (ground arith)
set_level_of-HasMask (x ∷ xs) id old other level e = elim (Bool-cases (x.id == id)) [
  | inl same ↦ elim (Bool-cases (x.id == other)) [
    | inl here ↦
        let hit : (other == id) ≡ true = ground arith in rw (HasMask, here, hit, mask_at, same) refl
    | inr elsewhere ↦
        let miss : (other == id) ≡ false = ground arith in
        rw (HasMask, elsewhere, miss, mask_at, same) (ground arith)
  ]
  | inr differs ↦
      let tail : mask_at xs id ≡ some old = ground arith in
      let rest = set_level_of-HasMask xs id old other level tail in
      elim (Bool-cases (x.id == other)) [
        | inl here ↦
            let miss : (other == id) ≡ false = ground arith in
            rw (HasMask, here, miss, mask_at, differs) tail
        | inr elsewhere ↦ rw (HasMask, elsewhere, mask_at, differs) rest
      ]
]

pub find_log-HasMask :
    (ls : List Log) (id : ℕ) (l : Log) → find_log ls id ≡ some l → HasMask ls id l.level_mask
unfolding HasMask
find_log-HasMask = mask_at-find_log

pub get_log_level-HasMask :
    (ls : List Log) (id mask : ℕ) → HasMask ls id mask → get_log_level ls id ≡ mask
unfolding HasMask
get_log_level-HasMask = get_log_level-mask_at
