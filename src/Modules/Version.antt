-- ===== src/Modules/Version.antt =====
-- public/tge/module/version.hpp: versions, and when a loaded one satisfies a required one.
pub mod Order
use tge_core.Prelude.{ℕ, ◌==◌, ltb, leb, Bool, not, ◌&&◌, ◌||◌}

pub record Version : Type 0 where
  pub major : ℕ
  pub minor : ℕ
  pub patch : ℕ

unfoldable pub satisfies : Version → Version → Bool
satisfies have required =
    have.major == required.major
    && (ltb required.minor have.minor
        || (have.minor == required.minor && leb required.patch have.patch))

unfoldable pub is_constrained : Version → Bool
is_constrained v = not (v.major == 0) || (not (v.minor == 0) || not (v.patch == 0))
