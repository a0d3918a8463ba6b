-- ===== src/Modules/Version/Order.antt =====
-- `satisfies` as an order on the versions of one major number.
use tge_core.Prelude.{◌≤◌, ◌<◌, ◌≡◌, ◌⊎◌, ◌↔◌, true, arith}
use tge_core.Modules.Version.{Version, satisfies}

-- Compatible and at least as new: the same major, and not older in the lexicographic order.
abbrev pub IsAtLeast : Version → Version → Type 0
IsAtLeast a b =
    (a.major ≡ b.major) × ((b.minor < a.minor) ⊎ ((a.minor ≡ b.minor) × (b.patch ≤ a.patch)))

pub satisfies-IsAtLeast : (a b : Version) → (satisfies a b ≡ true) ↔ IsAtLeast a b
unfolding satisfies
satisfies-IsAtLeast a b = ground arith

-- A version that satisfies another also satisfies what the other satisfies; the last of the three
-- satisfies the first exactly if all three are equal.
pub satisfies_order :
    (a b c : Version)
    → satisfies a b ≡ true
    → satisfies b c ≡ true
    → (satisfies a c ≡ true) × ((satisfies c a ≡ true) ↔ ((a ≡ b) × (b ≡ c)))
unfolding satisfies
satisfies_order a b c h k =
    (ground arith, (λ back. (ground arith, ground arith), λ (p, q). ground arith))

-- One of two versions satisfies the other exactly if they have the same major number.
pub satisfies_total :
    (a b : Version) → (a.major ≡ b.major) ↔ ((satisfies a b ≡ true) ⊎ (satisfies b a ≡ true))
unfolding satisfies
satisfies_total a b = (λ h. ground arith, λ h. ground arith)
