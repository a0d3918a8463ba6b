-- ===== src/Prelude/Lists.antt =====
-- Lists measured and indexed by native numbers, under the library's names; a list as a multiset.
use Prim.Native.Nat.{ℕ, zero, suc, ◌+◌, ◌≤◌, ◌<◌}
use mathlib.Core.Path.{◌≡◌, refl, ap, ◌∙◌, subst, sym}
use mathlib.Core.Logic.{∥∥₁_elim, ∥∥₁_prop, ◌≢◌, ◌⊎◌, inl, inr}
use mathlib.Core.Logic.Or
use mathlib.Core.Bool.{Bool, true, false, ◌||◌}
use mathlib.Core.List.{List, [], ◌∷◌, ◌++◌, Mem, Perm, Permᴰ, mem-cons, not-mem-nil}
use mathlib.Core.Option.{Option, none, some}
use native.Mathlib.Omega.{arith}
use native.Mathlib.Nat.{ℕ_set}
use native.Mathlib.Bridge.{le_prop}
use tge_core.Prelude.Tests.{if◌then◌else◌, Bool-cases, ◌==◌}

module _ {ℓ} {A : Type ℓ} where
  abbrev pub length : List A → ℕ
  length [] = 0
  length (x ∷ xs) = suc (length xs)

  abbrev pub get_elem? : List A → ℕ → Option A
  get_elem? [] i = none
  get_elem? (x ∷ xs) zero = some x
  get_elem? (x ∷ xs) (suc i) = get_elem? xs i

  abbrev pub get_or : List A → ℕ → A → A
  get_or [] i d = d
  get_or (x ∷ xs) zero d = x
  get_or (x ∷ xs) (suc i) d = get_or xs i d

  -- A write out of bounds changes nothing.
  abbrev pub set : List A → ℕ → A → List A
  set [] i v = []
  set (x ∷ xs) zero v = v ∷ xs
  set (x ∷ xs) (suc i) v = x ∷ set xs i v

  abbrev pub replicate : ℕ → A → List A
  replicate zero a = []
  replicate (suc n) a = a ∷ replicate n a

  abbrev pub All {κ} : (A → Type κ) → List A → Type κ
  All P [] = Unit
  All P (x ∷ xs) = P x × All P xs

  abbrev pub any : (A → Bool) → List A → Bool
  any p [] = false
  any p (x ∷ xs) = p x || any p xs

  -- `std::erase_if` keeps what does not satisfy the test; this one keeps what does.
  abbrev pub keep_if : (A → Bool) → List A → List A
  keep_if p [] = []
  keep_if p (x ∷ xs) = if p x then x ∷ keep_if p xs else keep_if p xs

  -- The number of entries that pass a test.
  abbrev pub count_if : (A → Bool) → List A → ℕ
  count_if p [] = 0
  count_if p (x ∷ xs) = if p x then suc (count_if p xs) else count_if p xs

module _ {ℓ} {A : Type ℓ} where
  pub length-append : (xs ys : List A) → length (xs ++ ys) ≡ length xs + length ys
  length-append [] ys = omega arith
  length-append (x ∷ xs) ys = omega (arith, length-append xs ys)

  pub length-set : (xs : List A) (i : ℕ) (v : A) → length (set xs i v) ≡ length xs
  length-set [] i v = refl
  length-set (x ∷ xs) zero v = refl
  length-set (x ∷ xs) (suc i) v = ap suc (length-set xs i v)

  pub count_if-append :
      (p : A → Bool) (xs ys : List A) → count_if p (xs ++ ys) ≡ count_if p xs + count_if p ys
  count_if-append p [] ys = omega arith
  count_if-append p (x ∷ xs) ys = ground (arith, count_if-append p xs ys)

  count_if-permᴰ : (p : A → Bool) {xs ys : List A} → Permᴰ xs ys → count_if p xs ≡ count_if p ys
  count_if-permᴰ p Permᴰ.nil = refl
  count_if-permᴰ p (Permᴰ.cons {a = a} {b = b} e h) = ground (arith, ap p e, count_if-permᴰ p h)
  count_if-permᴰ p (Permᴰ.swap d e) = ground (arith, ap p d, ap p e)
  count_if-permᴰ p (Permᴰ.trans h k) = count_if-permᴰ p h ∙ count_if-permᴰ p k

  -- A permutation keeps the number of entries that pass a test.
  pub count_if-perm : (p : A → Bool) {xs ys : List A} → Perm xs ys → count_if p xs ≡ count_if p ys
  count_if-perm p {xs} {ys} h =
      ∥∥₁_elim h (ℕ_set (count_if p xs) (count_if p ys)) (count_if-permᴰ p)

  pub count_if_pos :
      (p : A → Bool) (a : A) (xs : List A) → Mem a xs → p a ≡ true → 0 < count_if p xs
  count_if_pos p a [] m e = absurd (not-mem-nil m)
  count_if_pos p a (x ∷ xs) m e =
      Or.elim le_prop (mem-cons.0 m) (λ h. ground (arith, ap p h))
        (λ h. ground (arith, count_if_pos p a xs h e))

module _ {ℓ} {A : Type ℓ} (f : A → ℕ) where
  -- No two entries have the same key.
  abbrev pub Distinct : List A → Type 0
  Distinct [] = Unit
  Distinct (x ∷ xs) = All (λ y. f y ≢ f x) xs × Distinct xs

module _ {ℓ} {A : Type ℓ} where
  pub count_if-le-length : (p : A → Bool) (xs : List A) → count_if p xs ≤ length xs
  count_if-le-length p [] = omega arith
  count_if-le-length p (x ∷ xs) = ground (arith, count_if-le-length p xs)

  -- What no entry passes counts nothing.
  pub count_if_zero : (p : A → Bool) (xs : List A) → All (λ x. p x ≡ false) xs → count_if p xs ≡ 0
  count_if_zero p [] h = refl
  count_if_zero p (x ∷ xs) h = ground (arith, count_if_zero p xs h.1)

  pub All-mem {κ} :
      {P : A → Type κ} (pP : (a : A) → IsProp (P a)) {a : A} (xs : List A)
      → All P xs
      → Mem a xs
      → P a
  All-mem pP [] h m = absurd (not-mem-nil m)
  All-mem {P} pP {a} (x ∷ xs) h m =
      Or.elim (pP a) (mem-cons.0 m) (λ e. subst P (sym e) h.0) (All-mem pP xs h.1)

  pub All-of_All {κ} : {P : A → Type κ} → ((a : A) → P a) → (xs : List A) → All P xs
  All-of_All h [] = tt
  All-of_All h (x ∷ xs) = (h x, All-of_All h xs)

  -- Where a list with one more entry at its end splits.
  pub split-concat :
      (l xs ys : List A) (a x : A)
      → l ++ a ∷ [] ≡ xs ++ x ∷ ys
      → ((xs ≡ l) × (x ≡ a)) ⊎ ((zs : List A) × (l ≡ xs ++ x ∷ zs))
  split-concat [] [] ys a x e = inl (refl, ground arith)
  split-concat [] (b ∷ []) ys a x e = absurd (ground arith)
  split-concat [] (b ∷ c ∷ xs) ys a x e = absurd (ground arith)
  split-concat (b ∷ l) [] ys a x e = inr (l, ground arith)
  split-concat (b ∷ l) (c ∷ xs) ys a x e = elim (split-concat l xs ys a x (ground arith)) [
    | inl (p, q) ↦ inl (ground arith, q)
    | inr (zs, p) ↦ inr (zs, ground arith)
  ]

  pub get_elem?-lt : (xs : List A) (i : ℕ) → i < length xs → (x : A) × (get_elem? xs i ≡ some x)
  get_elem?-lt [] i h = absurd (omega arith)
  get_elem?-lt (x ∷ xs) zero h = (x, refl)
  get_elem?-lt (x ∷ xs) (suc i) h = get_elem?-lt xs i (omega arith)

  pub All-concat {κ} :
      (P : A → Type κ) (xs : List A) (a : A) → All P xs → P a → All P (xs ++ a ∷ [])
  All-concat P [] a h p = (p, tt)
  All-concat P (x ∷ xs) a h p = (h.0, All-concat P xs a h.1 p)

  count_if-true : (xs : List A) → count_if (λ _. true) xs ≡ length xs
  count_if-true [] = refl
  count_if-true (x ∷ xs) = ap suc (count_if-true xs)

  pub length-perm : {xs ys : List A} → Perm xs ys → length xs ≡ length ys
  length-perm {xs} {ys} h =
      omega (arith, count_if-true xs, count_if-true ys, count_if-perm (λ _. true) h)

  pub nil_of_length : (xs : List A) → length xs ≡ 0 → xs ≡ []
  nil_of_length [] h = refl
  nil_of_length (x ∷ xs) h = absurd (omega arith)

  pub mem_of_get_elem? : (xs : List A) (i : ℕ) (x : A) → get_elem? xs i ≡ some x → Mem x xs
  mem_of_get_elem? [] i x e = cc
  mem_of_get_elem? (y ∷ xs) zero x e = mem-cons.1 (Or.inl (ground arith))
  mem_of_get_elem? (y ∷ xs) (suc i) x e = mem-cons.1 (Or.inr (mem_of_get_elem? xs i x e))

  -- A test that some entry passes is passed by an entry at hand.
  pub find_of_count :
      (p : A → Bool) (xs : List A) → 0 < count_if p xs → (a : A) × Mem a xs × (p a ≡ true)
  find_of_count p [] h = absurd (omega arith)
  find_of_count p (x ∷ xs) h = elim (Bool-cases (p x)) [
    | inl e ↦ (x, mem-cons.1 (Or.inl refl), e)
    | inr e ↦ let (a, m, q) = find_of_count p xs (ground arith) in (a, mem-cons.1 (Or.inr m), q)
  ]

  pub All-of_mem {κ} : {P : A → Type κ} (xs : List A) → ((a : A) → Mem a xs → P a) → All P xs
  All-of_mem [] h = tt
  All-of_mem (x ∷ xs) h =
      (h x (mem-cons.1 (Or.inl refl)), All-of_mem xs (λ a m. h a (mem-cons.1 (Or.inr m))))

  pub All-map {κ μ} :
      {P : A → Type κ} {Q : A → Type μ}
      → ((a : A) → P a → Q a)
      → (xs : List A) → All P xs
      → All Q xs
  All-map f [] h = tt
  All-map f (x ∷ xs) h = (f x h.0, All-map f xs h.1)

  pub All-zip {κ μ} :
      {P : A → Type κ} {Q : A → Type μ} {R : A → Type μ}
      → ((a : A) → P a → Q a → R a)
      → (xs : List A) → All P xs
      → All Q xs
      → All R xs
  All-zip f [] h k = tt
  All-zip f (x ∷ xs) h k = (f x h.0 k.0, All-zip f xs h.1 k.1)

  pub All-pick {κ} : (P : A → Type κ) (xs : List A) {a : A} → All P xs → Mem a xs → ∥ P a ∥₁
  All-pick P xs h m = All-mem (λ _. ∥∥₁_prop) xs (All-map (λ a p. ∣ p ∣₁) xs h) m

  -- `v.resize(n, d)` where that makes the list no shorter.
  abbrev pub grow : ℕ → A → List A → List A
  grow zero d xs = xs
  grow (suc n) d [] = d ∷ grow n d []
  grow (suc n) d (x ∷ xs) = x ∷ grow n d xs

  pub get_or-grow : (n : ℕ) (d : A) (xs : List A) (i : ℕ) → get_or (grow n d xs) i d ≡ get_or xs i d
  get_or-grow zero d xs i = refl
  get_or-grow (suc n) d [] zero = refl
  get_or-grow (suc n) d [] (suc i) = get_or-grow n d [] i
  get_or-grow (suc n) d (x ∷ xs) zero = refl
  get_or-grow (suc n) d (x ∷ xs) (suc i) = get_or-grow n d xs i

  pub length-grow : (n : ℕ) (d : A) (xs : List A) → n ≤ length (grow n d xs)
  length-grow zero d xs = omega arith
  length-grow (suc n) d [] = omega (arith, length-grow n d [])
  length-grow (suc n) d (x ∷ xs) = omega (arith, length-grow n d xs)

  pub get_or-set :
      (xs : List A) (i j : ℕ) (v d : A)
      → i < length xs
      → get_or (set xs i v) j d ≡ (if j == i then v else get_or xs j d)
  get_or-set [] i j v d h = absurd (omega arith)
  get_or-set (x ∷ xs) zero zero v d h = refl
  get_or-set (x ∷ xs) zero (suc j) v d h = ground arith
  get_or-set (x ∷ xs) (suc i) zero v d h = ground arith
  get_or-set (x ∷ xs) (suc i) (suc j) v d h = ground (arith, get_or-set xs i j v d)

  pub get_or-set_out :
      (xs : List A) (i j : ℕ) (v d : A) → length xs ≤ i → get_or (set xs i v) j d ≡ get_or xs j d
  get_or-set_out [] i j v d h = refl
  get_or-set_out (x ∷ xs) zero j v d h = absurd (omega arith)
  get_or-set_out (x ∷ xs) (suc i) zero v d h = refl
  get_or-set_out (x ∷ xs) (suc i) (suc j) v d h = get_or-set_out xs i j v d (omega arith)

  pub List-cases : (xs : List A) → (xs ≡ []) ⊎ ((y : A) × (ys : List A) × (xs ≡ y ∷ ys))
  List-cases [] = inl refl
  List-cases (x ∷ xs) = inr (x, xs, refl)

  pub keep_if-append :
      (p : A → Bool) (xs ys : List A) → keep_if p (xs ++ ys) ≡ keep_if p xs ++ keep_if p ys
  keep_if-append p [] ys = refl
  keep_if-append p (x ∷ xs) ys = ground (arith, keep_if-append p xs ys)

  pub keep_if-keep_if : (p : A → Bool) (xs : List A) → keep_if p (keep_if p xs) ≡ keep_if p xs
  keep_if-keep_if p [] = refl
  keep_if-keep_if p (x ∷ xs) = ground (arith, keep_if-keep_if p xs)

  -- Tests that agree on the entries keep the same.
  pub keep_if_same :
      (p q : A → Bool) (xs : List A) → All (λ x. p x ≡ q x) xs → keep_if p xs ≡ keep_if q xs
  keep_if_same p q [] h = refl
  keep_if_same p q (x ∷ xs) h = ground (arith, keep_if_same p q xs h.1)

  pub All-keep_if {κ} :
      (P : A → Type κ) (p : A → Bool) (xs : List A) → All P xs → All P (keep_if p xs)
  All-keep_if P p [] h = tt
  All-keep_if P p (x ∷ xs) h = elim (Bool-cases (p x)) [
    | inl e ↦ rw e (h.0, All-keep_if P p xs h.1)
    | inr e ↦ rw e (All-keep_if P p xs h.1)
  ]

  pub count_if_same :
      (p q : A → Bool) (xs : List A) → All (λ x. p x ≡ q x) xs → count_if p xs ≡ count_if q xs
  count_if_same p q [] h = refl
  count_if_same p q (x ∷ xs) h = ground (arith, count_if_same p q xs h.1)

  pub keep_if-All : (p : A → Bool) (xs : List A) → All (λ x. p x ≡ true) xs → keep_if p xs ≡ xs
  keep_if-All p [] h = refl
  keep_if-All p (x ∷ xs) h = ground (arith, keep_if-All p xs h.1)

  pub length-grow_ge : (n : ℕ) (d : A) (xs : List A) → length xs ≤ length (grow n d xs)
  length-grow_ge zero d xs = omega arith
  length-grow_ge (suc n) d [] = omega arith
  length-grow_ge (suc n) d (x ∷ xs) = omega (arith, length-grow_ge n d xs)

  pub Distinct-concat :
      (f : A → ℕ) (xs : List A) (a : A)
      → All (λ x. f x ≢ f a) xs
      → Distinct f xs
      → Distinct f (xs ++ a ∷ [])
  Distinct-concat f [] a h d = (tt, tt)
  Distinct-concat f (x ∷ xs) a h d =
      (All-concat (λ y. f y ≢ f x) xs a d.0 (λ e. h.0 (sym e)), Distinct-concat f xs a h.1 d.1)

  pub Distinct-keep_if :
      (f : A → ℕ) (p : A → Bool) (xs : List A) → Distinct f xs → Distinct f (keep_if p xs)
  Distinct-keep_if f p [] d = tt
  Distinct-keep_if f p (x ∷ xs) d = elim (Bool-cases (p x)) [
    | inl e ↦ rw e (All-keep_if (λ y. f y ≢ f x) p xs d.0, Distinct-keep_if f p xs d.1)
    | inr e ↦ rw e (Distinct-keep_if f p xs d.1)
  ]

  pub get_or_past : (xs : List A) (i : ℕ) (d : A) → length xs ≤ i → get_or xs i d ≡ d
  get_or_past [] i d h = refl
  get_or_past (x ∷ xs) zero d h = absurd (omega arith)
  get_or_past (x ∷ xs) (suc i) d h = get_or_past xs i d (omega arith)
