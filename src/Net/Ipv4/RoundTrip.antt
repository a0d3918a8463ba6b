-- ===== src/Net/Ipv4/RoundTrip.antt =====
-- Addresses printed and read again.
use mathlib.Core.List.{append-nil}
use tge_core.Prelude.{
  ℕ, suc, ◌+◌, ◌-◌, ◌*◌, ◌/◌, ◌%◌, ◌<◌, ◌==◌, ◌≡◌, refl, ◌∙◌, ap, sym, ltb, leb, true, false, not,
  List, [], ◌∷◌, ◌++◌, some, if◌then◌else◌, get_or, set, length, arith, Bool-cases, inl, inr,
}
use tge_core.Prelude.Words.{u32_mod}
use tge_core.Net.Ipv4.{
  dot, is_digit, Scan, first_scan, add_digit, scan_character, scan_all, address_of, parse_ipv4,
}

-- A part in decimal, without a zero in front.
abbrev pub print_part : ℕ → List ℕ
print_part n =
    if ltb n 10
    then (48 + n) ∷ []
    else if ltb n 100
    then (48 + n / 10) ∷ (48 + n % 10) ∷ []
    else (48 + n / 100) ∷ (48 + n / 10 % 10) ∷ (48 + n % 10) ∷ []

abbrev pub print : ℕ → ℕ → ℕ → ℕ → List ℕ
print a b c d = print_part a ++ dot ∷ (print_part b ++ dot ∷ (print_part c ++ dot ∷ print_part d))

-- The states of the scan before a part and behind it.
abbrev before : List ℕ → ℕ → Scan
before parts k = record { parts = parts; num_parts = k; has_digit = false; is_valid = true }

abbrev behind : List ℕ → ℕ → Scan
behind parts k = record { parts = parts; num_parts = k; has_digit = true; is_valid = true }

digit-is_digit : (digit : ℕ) → digit < 10 → is_digit (48 + digit) ≡ true
digit-is_digit digit lt = ground arith

-- The first digit of a part, a further one, and the dot behind a part.
add_digit-behind :
    (s : Scan) (k value digit : ℕ)
    → digit < 10
    → value * 10 + digit < 256
    → get_or s.parts k 0 ≡ value
    → s.num_parts + (if not s.has_digit then 1 else 0) ≡ k + 1
    → add_digit s (48 + digit) ≡ behind (set s.parts k (value * 10 + digit)) (k + 1)
unfolding add_digit
add_digit-behind s k value digit small fits e n =
    let back : k + 1 - 1 ≡ k = omega arith in
    let sum : (value * 10 + (48 + digit - 48)) % u32_mod ≡ value * 10 + digit = omega arith in
    let ok : leb (value * 10 + digit) 255 ≡ true = ground arith in rw (n, back, e, sum, ok) refl

scan-first :
    (parts : List ℕ) (k digit : ℕ) (rest : List ℕ)
    → k < 4
    → digit < 10
    → get_or parts k 0 ≡ 0
    → scan_all (before parts k) ((48 + digit) ∷ rest)
      ≡ scan_all (behind (set parts k digit) (k + 1)) rest
unfolding scan_all scan_character
scan-first parts k digit rest lt small e =
    let room : ltb k 4 ≡ true = ground arith in
    let sum : 0 * 10 + digit ≡ digit = omega arith in
    rw (digit-is_digit digit small, room)
      (ap (λ s. scan_all s rest)
        (add_digit-behind (before parts k) k 0 digit small (omega arith) e refl
          ∙ ap (λ v. behind (set parts k v) (k + 1)) sum))

scan-more :
    (parts : List ℕ) (k value digit : ℕ) (rest : List ℕ)
    → digit < 10
    → 0 < value
    → value * 10 + digit < 256
    → get_or parts k 0 ≡ value
    → scan_all (behind parts (k + 1)) ((48 + digit) ∷ rest)
      ≡ scan_all (behind (set parts k (value * 10 + digit)) (k + 1)) rest
unfolding scan_all scan_character
scan-more parts k value digit rest small pos fits e =
    let back : k + 1 - 1 ≡ k = omega arith in
    let more : (value == 0) ≡ false = ground arith in
    rw (digit-is_digit digit small, back, e, more)
      (ap (λ s. scan_all s rest)
        (add_digit-behind (behind parts (k + 1)) k value digit small fits e (omega arith)))

scan-dot :
    (parts : List ℕ) (k : ℕ) (rest : List ℕ)
    → k < 4
    → scan_all (behind parts k) (dot ∷ rest) ≡ scan_all (before parts k) rest
unfolding scan_all scan_character
scan-dot parts k rest lt =
    let room : ltb k 4 ≡ true = ground arith in
    ap
      (λ b.
        scan_all (record { parts = parts; num_parts = k; has_digit = false; is_valid = b }) rest)
      room

get_or-set_same : (xs : List ℕ) (k v : ℕ) → k < length xs → get_or (set xs k v) k 0 ≡ v
get_or-set_same [] k v lt = absurd (omega arith)
get_or-set_same (x ∷ xs) ℕ.zero v lt = refl
get_or-set_same (x ∷ xs) (suc k) v lt = get_or-set_same xs k v (omega arith)

set-set : (xs : List ℕ) (k v w : ℕ) → set (set xs k v) k w ≡ set xs k w
set-set [] k v w = refl
set-set (x ∷ xs) ℕ.zero v w = refl
set-set (x ∷ xs) (suc k) v w = ap (λ l. x ∷ l) (set-set xs k v w)

-- The scan continues a part by one digit.
scan-next :
    (parts : List ℕ) (k value digit : ℕ) (rest : List ℕ)
    → k < length parts
    → digit < 10
    → 0 < value
    → value * 10 + digit < 256
    → scan_all (behind (set parts k value) (k + 1)) ((48 + digit) ∷ rest)
      ≡ scan_all (behind (set parts k (value * 10 + digit)) (k + 1)) rest
scan-next parts k value digit rest lt small pos fits =
    scan-more (set parts k value) k value digit rest small pos fits
      (get_or-set_same parts k value lt)
    ∙ ap (λ l. scan_all (behind l (k + 1)) rest) (set-set parts k value (value * 10 + digit))

scan-part :
    (parts : List ℕ) (k n : ℕ) (rest : List ℕ)
    → length parts ≡ 4
    → k < 4
    → n < 256
    → get_or parts k 0 ≡ 0
    → scan_all (before parts k) (print_part n ++ rest)
      ≡ scan_all (behind (set parts k n) (k + 1)) rest
scan-part parts k n rest four lt small e = elim (Bool-cases (ltb n 10)) [
  | inl one ↦ rw one (scan-first parts k n rest lt (ground arith) e)
  | inr more ↦ elim (Bool-cases (ltb n 100)) [
    | inl two ↦
        rw (more, two)
          (scan-first parts k (n / 10) ((48 + n % 10) ∷ rest) lt (ground arith) e
            ∙ scan-next parts k (n / 10) (n % 10) rest (omega arith) (omega arith) (ground arith)
                (omega arith)
            ∙ ap (λ v. scan_all (behind (set parts k v) (k + 1)) rest) (omega arith))
    | inr three ↦
        rw (more, three)
          (scan-first parts k (n / 100) ((48 + n / 10 % 10) ∷ (48 + n % 10) ∷ rest) lt (omega arith)
              e
            ∙ scan-next parts k (n / 100) (n / 10 % 10) ((48 + n % 10) ∷ rest) (omega arith)
                (omega arith) (ground arith) (omega arith)
            ∙ scan-next parts k (n / 100 * 10 + n / 10 % 10) (n % 10) rest (omega arith)
                (omega arith) (ground arith) (omega arith)
            ∙ ap (λ v. scan_all (behind (set parts k v) (k + 1)) rest) (omega arith))
  ]
]

scan-print :
    (a b c d : ℕ)
    → a < 256
    → b < 256
    → c < 256
    → d < 256
    → scan_all first_scan (print a b c d) ≡ behind (a ∷ b ∷ c ∷ d ∷ []) 4
unfolding scan_all
scan-print a b c d ha hb hc hd =
    let third : List ℕ = print_part c ++ dot ∷ print_part d in
    let second : List ℕ = print_part b ++ dot ∷ third in
    scan-part (0 ∷ 0 ∷ 0 ∷ 0 ∷ []) 0 a (dot ∷ second) refl (omega arith) ha refl
    ∙ scan-dot (a ∷ 0 ∷ 0 ∷ 0 ∷ []) 1 second (omega arith)
    ∙ scan-part (a ∷ 0 ∷ 0 ∷ 0 ∷ []) 1 b (dot ∷ third) refl (omega arith) hb refl
    ∙ scan-dot (a ∷ b ∷ 0 ∷ 0 ∷ []) 2 third (omega arith)
    ∙ scan-part (a ∷ b ∷ 0 ∷ 0 ∷ []) 2 c (dot ∷ print_part d) refl (omega arith) hc refl
    ∙ scan-dot (a ∷ b ∷ c ∷ 0 ∷ []) 3 (print_part d) (omega arith)
    ∙ ap (scan_all (before (a ∷ b ∷ c ∷ 0 ∷ []) 3)) (sym (append-nil (print_part d)))
    ∙ scan-part (a ∷ b ∷ c ∷ 0 ∷ []) 3 d [] refl (omega arith) hd refl

-- Any four parts below 256, printed in decimal without leading zeros and with dots between them, are
-- read as the address whose bytes they are, the first part the highest.
pub parse_ipv4_lem :
    (a b c d : ℕ)
    → a < 256
    → b < 256
    → c < 256
    → d < 256
    → parse_ipv4 (print a b c d) ≡ some (address_of a b c d)
unfolding parse_ipv4
parse_ipv4_lem a b c d ha hb hc hd = rw (scan-print a b c d ha hb hc hd) refl
