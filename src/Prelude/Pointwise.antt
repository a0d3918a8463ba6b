-- ===== src/Prelude/Pointwise.antt =====
-- What holds of every entry of a list.
use mathlib.Core.List.{List, [], ◌∷◌, ◌++◌}
use tge_core.Prelude.Lists.{All}

module _ {ℓ κ} {A : Type ℓ} (P : A → Type κ) where
  -- Of both parts of a list.
  pub All-append : (xs ys : List A) → All P (xs ++ ys) → All P xs × All P ys
  All-append [] ys h = (tt, h)
  All-append (x ∷ xs) ys h = let (l, r) = All-append xs ys h.1 in ((h.0, l), r)

  pub All-join : (xs ys : List A) → All P xs → All P ys → All P (xs ++ ys)
  All-join [] ys h k = k
  All-join (x ∷ xs) ys h k = (h.0, All-join xs ys h.1 k)
