-- ===== src/Prelude/Words/Align.antt =====
-- `align_up` rounds an address up to the next multiple of a power of two.
use Prim.Native.Nat.{ℕ, ◌+◌, ◌-◌, ◌*◌, ◌/◌, ◌%◌, ◌^◌, ◌≤◌, ◌<◌, bit_and}
use mathlib.Core.Path.{◌≡◌, ap, sym, ◌∙◌, ap₂}
use native.Mathlib.Omega.{arith}
use native.Mathlib.Nat.{one-le-pow, mod-lt, mul-mod_left, div-add-mod'}
use tge_core.Prelude.Words.{u64_mod, add64, sub64, not64, align_up}
use tge_core.Prelude.Words.Bits.{bit_and_high}

abbrev pub IsAlignment : ℕ → Type 0
IsAlignment alignment = (k : ℕ) × (k < 64) × (alignment ≡ 2 ^ k)

alignment_pos : (alignment : ℕ) → IsAlignment alignment → 0 < alignment
alignment_pos alignment (k, lt, e) = omega (arith, one-le-pow k 2 (omega arith))

align_up_floor :
    (a al : ℕ)
    → IsAlignment al
    → a + al ≤ u64_mod
    → align_up a al ≡ (a + al - 1) - (a + al - 1) % al
unfolding align_up
align_up_floor a al (k, lt, e) h =
    ap₂ bit_and top mask
    ∙ bit_and_high k 64 (a + al - 1) (omega arith) (omega (arith, pos))
    ∙ ap (λ (t : ℕ). (a + al - 1) - (a + al - 1) % t) (sym e)
  where
    pos : 0 < al
    pos = alignment_pos al (k, lt, e)

    top : sub64 (add64 a al) 1 ≡ a + al - 1
    top = omega (arith, pos)

    mask : not64 (sub64 al 1) ≡ 2 ^ 64 - 2 ^ k
    mask = omega (arith, pos)

-- Where the sum fits a word, the result is aligned, not below the address, and less than one
-- alignment above it.
pub align_up_bounds :
    (a al : ℕ)
    → IsAlignment al
    → a + al ≤ u64_mod
    → (a ≤ align_up a al) × (align_up a al < a + al) × (align_up a al % al ≡ 0)
align_up_bounds a al h fits = (
  omega (arith, floor, mod-lt (a + al - 1) pos, pos),
  omega (arith, floor, pos),
  ap (λ (t : ℕ). t % al) multiple ∙ mul-mod_left ((a + al - 1) / al) al,
)
  where
    pos : 0 < al
    pos = alignment_pos al h

    floor : align_up a al ≡ (a + al - 1) - (a + al - 1) % al
    floor = align_up_floor a al h fits

    multiple : align_up a al ≡ (a + al - 1) / al * al
    multiple = omega (arith, floor, div-add-mod' (a + al - 1) al)
