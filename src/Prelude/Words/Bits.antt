-- ===== src/Prelude/Words/Bits.antt =====
-- Masks of high bits: `bit_and` with 2 ^ w - 2 ^ k clears the low k bits of a w-bit number.
use Prim.Native.Nat.{
  ℕ, zero, suc, ◌+◌, ◌-◌, ◌*◌, ◌/◌, ◌%◌, ◌^◌, ◌≤◌, ◌<◌, min, bit_and, digits, bit_and-bitwise,
}
use mathlib.Core.Path.{◌≡◌, refl, ap, ◌∙◌}
use native.Mathlib.Omega.{arith}
use native.Mathlib.Nat.{
  pow-suc, one-le-pow, add-mul-mod_self_right, mod-eq_of_lt, mod-lt, div-add-mod,
}

-- More fuel than the first number has digits changes nothing.
spare_fuel :
    (n m a b : ℕ) → a ≤ n → a ≤ m → digits (λ _. zero) min n a b ≡ digits (λ _. zero) min m a b
spare_fuel zero zero a b h k = refl
spare_fuel (suc n) zero zero b h k = refl
spare_fuel (suc n) zero (suc a) b h k = absurd (omega arith)
spare_fuel zero (suc m) zero b h k = refl
spare_fuel zero (suc m) (suc a) b h k = absurd (omega arith)
spare_fuel (suc n) (suc m) zero b h k = refl
spare_fuel (suc n) (suc m) (suc a) b h k =
    omega (arith, spare_fuel n m (suc a / 2) (b / 2) (omega arith) (omega arith))

-- The lowest digit, and the rest.
pub bit_and-halves : (a b : ℕ) → bit_and a b ≡ 2 * bit_and (a / 2) (b / 2) + min (a % 2) (b % 2)
bit_and-halves zero b = omega (arith, bit_and-bitwise zero b, bit_and-bitwise zero (b / 2))
bit_and-halves (suc a) b = omega (
  arith,
  spare_fuel a (suc a / 2) (suc a / 2) (b / 2) (omega arith) (omega arith),
  bit_and-bitwise (suc a) b,
  bit_and-bitwise (suc a / 2) (b / 2),
)

-- A mask of all ones.
bit_and_ones : (w a : ℕ) → a < 2 ^ w → bit_and a (2 ^ w - 1) ≡ a
bit_and_ones zero zero h = refl
bit_and_ones zero (suc a) h = absurd (omega arith)
bit_and_ones (suc w) a h = omega (
  arith,
  pow-suc 2 w,
  one-le-pow w 2,
  bit_and-halves a (2 ^ suc w - 1),
  ap (bit_and (a / 2)) half_mask,
  bit_and_ones w (a / 2) (omega (arith, pow-suc 2 w)),
)
  where
    half_mask : (2 ^ suc w - 1) / 2 ≡ 2 ^ w - 1
    half_mask = omega (arith, pow-suc 2 w, one-le-pow w 2)

mod-double : (a p : ℕ) → 0 < p → a % (2 * p) ≡ 2 * (a / 2 % p) + a % 2
mod-double a p h =
    split
    ∙ add-mul-mod_self_right (2 * (a / 2 % p) + a % 2) (a / 2 / p) (2 * p)
    ∙ mod-eq_of_lt (omega (arith, mod-lt (a / 2) h))
  where
    split : a % (2 * p) ≡ (2 * (a / 2 % p) + a % 2 + a / 2 / p * (2 * p)) % (2 * p)
    split = ap (λ (t : ℕ). t % (2 * p)) (omega (arith, div-add-mod (a / 2) p))

-- Clearing the low k of n bits rounds down to a multiple of 2 ^ k.
pub bit_and_high : (k n a : ℕ) → k ≤ n → a < 2 ^ n → bit_and a (2 ^ n - 2 ^ k) ≡ a - a % 2 ^ k
bit_and_high zero n a le h = omega (arith, bit_and_ones n a h)
bit_and_high (suc k) zero a le h = absurd (omega arith)
bit_and_high (suc k) (suc n) a le h = omega (
  arith,
  bit_and-halves a (2 ^ suc n - 2 ^ suc k),
  ap (bit_and (a / 2)) half_mask,
  bit_and_high k n (a / 2) (omega arith) (omega (arith, pow-suc 2 n)),
  mod-double a (2 ^ k) (one-le-pow k 2 (omega arith)),
  ap (λ (t : ℕ). a % t) double,
  pow-suc 2 n,
  pow-suc 2 k,
)
  where
    half_mask : (2 ^ suc n - 2 ^ suc k) / 2 ≡ 2 ^ n - 2 ^ k
    half_mask = omega (arith, pow-suc 2 n, pow-suc 2 k)

    double : 2 ^ suc k ≡ 2 * 2 ^ k
    double = omega (arith, pow-suc 2 k)
