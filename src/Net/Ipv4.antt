-- ===== src/Net/Ipv4.antt =====
-- private/net/parse_ipv4.cpp: IPv4 addresses in dotted decimal. A character is the number of its
-- code.
pub mod RoundTrip
mod Tests
use Prim.Native.Nat.{bit_or}
use tge_core.Prelude.{
  ℕ, ◌+◌, ◌-◌, ◌*◌, ◌%◌, ◌^◌, ◌==◌, ltb, leb, Bool, true, false, not, ◌&&◌, List, [], ◌∷◌, Option,
  none, some, if◌then◌else◌, get_or, set,
}
use tge_core.Prelude.Words.{u32_mod}

abbrev pub max_parts : ℕ
max_parts = 4

abbrev pub dot : ℕ
dot = 46

abbrev pub is_digit : ℕ → Bool
is_digit character = leb 48 character && leb character 57

-- The variables of the loop.
pub record Scan : Type 0 where
  pub parts : List ℕ
  pub num_parts : ℕ
  pub has_digit : Bool
  pub is_valid : Bool

abbrev pub first_scan : Scan
first_scan = record {
  parts = 0 ∷ 0 ∷ 0 ∷ 0 ∷ [];
  num_parts = 0;
  has_digit = false;
  is_valid = true;
}

-- The branch of a digit, when the digit may stand there.
pub add_digit : Scan → ℕ → Scan
add_digit s character =
    let num_parts = s.num_parts + (if not s.has_digit then 1 else 0) in
    let value = (get_or s.parts (num_parts - 1) 0 * 10 + (character - 48)) % u32_mod in
    record {
      parts = set s.parts (num_parts - 1) value;
      num_parts = num_parts;
      has_digit = true;
      is_valid = leb value 255;
    }

-- One round of the loop.
pub scan_character : Scan → ℕ → Scan
unfolding add_digit
scan_character s character =
    if is_digit character
    then (if (if not s.has_digit
          then ltb s.num_parts max_parts
          else not (get_or s.parts (s.num_parts - 1) 0 == 0))
        then add_digit s character
        else record s { is_valid = false })
    else record s {
      is_valid = (character == dot) && (s.has_digit && ltb s.num_parts max_parts);
      has_digit = false;
    }

pub scan_all : Scan → List ℕ → Scan
unfolding scan_character
scan_all s [] = s
scan_all s (character ∷ rest) = if s.is_valid then scan_all (scan_character s character) rest else s

-- `(parts[0] << 24) | (parts[1] << 16) | (parts[2] << 8) | parts[3]`, on 32 bits.
abbrev pub address_of : ℕ → ℕ → ℕ → ℕ → ℕ
address_of a b c d =
    bit_or
      (bit_or (bit_or ((a * 2 ^ 24) % u32_mod) ((b * 2 ^ 16) % u32_mod)) ((c * 2 ^ 8) % u32_mod)) d

pub parse_ipv4 : List ℕ → Option ℕ
unfolding scan_all
parse_ipv4 text =
    let s = scan_all first_scan text in
    if s.is_valid && ((s.num_parts == max_parts) && s.has_digit)
    then some (
        address_of (get_or s.parts 0 0) (get_or s.parts 1 0) (get_or s.parts 2 0)
          (get_or s.parts 3 0))
    else none
