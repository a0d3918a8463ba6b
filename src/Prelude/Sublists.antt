-- ===== src/Prelude/Sublists.antt =====
-- A list that is left when entries of another are dropped.
use mathlib.Core.Path.{refl, ap, ◌∙◌}
use mathlib.Core.Bool.{Bool}
use mathlib.Core.List.{List, [], ◌∷◌, ◌++◌, map, Sublistᴰ}
use mathlib.Core.List.Sublistᴰ.{slnil, cons, cons-cons}
use tge_core.Prelude.Lists.{keep_if}
use tge_core.Prelude.Tests.{Bool-cases}
use mathlib.Core.Logic.{inl, inr}

module _ {ℓ} {A : Type ℓ} where
  pub sublist_refl : (xs : List A) → Sublistᴰ xs xs
  sublist_refl [] = slnil
  sublist_refl (x ∷ xs) = cons-cons refl (sublist_refl xs)

  pub sublist_trans : {xs ys zs : List A} → Sublistᴰ xs ys → Sublistᴰ ys zs → Sublistᴰ xs zs
  sublist_trans s slnil = s
  sublist_trans s (cons t) = cons (sublist_trans s t)
  sublist_trans (cons s) (cons-cons e t) = cons (sublist_trans s t)
  sublist_trans (cons-cons {l₁ = us} d s) (cons-cons e t) =
      cons-cons (d ∙ e) (sublist_trans {xs = us} s t)

  pub sublist_nil : (xs : List A) → Sublistᴰ [] xs
  sublist_nil [] = slnil
  sublist_nil (x ∷ xs) = cons (sublist_nil xs)

  pub sublist-append :
      {xs ys zs ws : List A} → Sublistᴰ xs ys → Sublistᴰ zs ws → Sublistᴰ (xs ++ zs) (ys ++ ws)
  sublist-append slnil t = t
  sublist-append (cons s) t = cons (sublist-append s t)
  sublist-append (cons-cons e s) t = cons-cons e (sublist-append s t)

  pub keep_if_sublist : (p : A → Bool) (xs : List A) → Sublistᴰ (keep_if p xs) xs
  keep_if_sublist p [] = slnil
  keep_if_sublist p (x ∷ xs) = elim (Bool-cases (p x)) [
    | inl e ↦ rw e (cons-cons refl (keep_if_sublist p xs))
    | inr e ↦ rw e (cons (keep_if_sublist p xs))
  ]

  pub sublist-map {κ} :
      {B : Type κ} (f : A → B) {xs ys : List A} → Sublistᴰ xs ys → Sublistᴰ (map f xs) (map f ys)
  sublist-map f slnil = slnil
  sublist-map f (cons s) = cons (sublist-map f s)
  sublist-map f (cons-cons e s) = cons-cons (ap f e) (sublist-map f s)
