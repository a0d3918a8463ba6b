-- ===== src/Net/Ipv4/Tests.antt =====
-- Addresses that are read, and texts that are refused.
use tge_core.Prelude.{◌≡◌, refl, [], ◌∷◌, none, some, arith}
use tge_core.Net.Ipv4.{parse_ipv4, address_of}
use tge_core.Net.Ipv4.RoundTrip.{print, parse_ipv4_lem}

parse_ipv4_lem_example : parse_ipv4 (print 192 0 2 10) ≡ some (address_of 192 0 2 10)
parse_ipv4_lem_example =
    parse_ipv4_lem 192 0 2 10 (omega arith) (omega arith) (omega arith) (omega arith)

-- `1.2.3.4`
reads_address : parse_ipv4 (49 ∷ 46 ∷ 50 ∷ 46 ∷ 51 ∷ 46 ∷ 52 ∷ []) ≡ some 16909060
unfolding parse_ipv4
reads_address = refl

-- `1.2.3.04`, `1.2.3`, `1.2.3.`, `1.2.3.256` and `1..2.3`
refuses_leading_zero : parse_ipv4 (49 ∷ 46 ∷ 50 ∷ 46 ∷ 51 ∷ 46 ∷ 48 ∷ 52 ∷ []) ≡ none
unfolding parse_ipv4
refuses_leading_zero = refl

refuses_three_parts : parse_ipv4 (49 ∷ 46 ∷ 50 ∷ 46 ∷ 51 ∷ []) ≡ none
unfolding parse_ipv4
refuses_three_parts = refl

refuses_open_end : parse_ipv4 (49 ∷ 46 ∷ 50 ∷ 46 ∷ 51 ∷ 46 ∷ []) ≡ none
unfolding parse_ipv4
refuses_open_end = refl

refuses_large_part : parse_ipv4 (49 ∷ 46 ∷ 50 ∷ 46 ∷ 51 ∷ 46 ∷ 50 ∷ 53 ∷ 54 ∷ []) ≡ none
unfolding parse_ipv4
refuses_large_part = refl

refuses_empty_part : parse_ipv4 (49 ∷ 46 ∷ 46 ∷ 50 ∷ 46 ∷ 51 ∷ []) ≡ none
unfolding parse_ipv4
refuses_empty_part = refl
