-- ===== src/Process/CommandLine/Quoting.antt =====
-- How one argument is read, quoted or as it stands.
use mathlib.Core.List.{append-nil, append_assoc}
use tge_core.Prelude.{
  ℕ, suc, ◌+◌, ◌*◌, ◌==◌, ◌≡◌, refl, ◌∙◌, ap, sym, inl, inr, Bool, true, false, not, ◌&&◌, List, [],
  ◌∷◌, ◌++◌, any, replicate, arith, Bool-cases, ==_iff,
}
use tge_core.Process.CommandLine.{backslash, quote, space, is_to_quote, append_quoted}
use tge_core.Process.CommandLine.Reading.{is_blank, is_even, half, before, read_argument}

-- The end of a text, or the next separator.
pub data StartsBlank : List ℕ → Type 0 where
  at_end : StartsBlank []
  at_space : (cs : List ℕ) → StartsBlank (space ∷ cs)

even_double : (n : ℕ) → (is_even (n * 2) ≡ true) × (half (n * 2) ≡ n)
even_double ℕ.zero = (refl, refl)
even_double (suc n) =
    let two : suc n * 2 ≡ suc (suc (n * 2)) = omega arith in
    rw two (rw ((even_double n).0) refl, ap suc (even_double n).1)

odd_double : (n : ℕ) → (is_even (n * 2 + 1) ≡ false) × (half (n * 2 + 1) ≡ n)
odd_double ℕ.zero = (refl, refl)
odd_double (suc n) =
    let two : suc n * 2 + 1 ≡ suc (suc (n * 2 + 1)) = omega arith in
    rw two (rw ((odd_double n).0) refl, ap suc (odd_double n).1)

replicate-suc :
    (n : ℕ) (xs : List ℕ)
    → replicate n backslash ++ backslash ∷ xs ≡ replicate (n + 1) backslash ++ xs
replicate-suc ℕ.zero xs = refl
replicate-suc (suc n) xs =
    let next : suc n + 1 ≡ suc (n + 1) = omega arith in
    rw next (ap (λ l. backslash ∷ l) (replicate-suc n xs))

read_argument-replicate :
    (q : Bool) (m n : ℕ) (t : List ℕ)
    → read_argument q m (replicate n backslash ++ t) ≡ read_argument q (m + n) t
unfolding read_argument
read_argument-replicate q m ℕ.zero t = ap (λ k. read_argument q k t) (omega arith)
read_argument-replicate q m (suc n) t =
    read_argument-replicate q (m + 1) n t ∙ ap (λ k. read_argument q k t) (omega arith)

read_argument-StartsBlank :
    (n : ℕ) (t : List ℕ) → StartsBlank t → read_argument false n t ≡ (replicate n backslash, t)
unfolding read_argument
read_argument-StartsBlank n _ at_end = refl
read_argument-StartsBlank n _ (at_space cs) = refl

-- A quote behind twice as many backslashes, or behind one more.
pub read_argument-double :
    (q : Bool) (n : ℕ) (t : List ℕ)
    → read_argument q 0 (replicate (n * 2) backslash ++ quote ∷ t)
      ≡ before (replicate n backslash) (read_argument (not q) 0 t)
unfolding read_argument
read_argument-double q n t =
    read_argument-replicate q 0 (n * 2) (quote ∷ t)
    ∙ (let same : 0 + n * 2 ≡ n * 2 = omega arith in
        rw (same, (even_double n).0, (even_double n).1) refl)

read_argument-odd :
    (q : Bool) (n : ℕ) (t : List ℕ)
    → read_argument q 0 (replicate (n * 2 + 1) backslash ++ quote ∷ t)
      ≡ before (replicate n backslash ++ quote ∷ []) (read_argument q 0 t)
unfolding read_argument
read_argument-odd q n t =
    read_argument-replicate q 0 (n * 2 + 1) (quote ∷ t)
    ∙ (let same : 0 + (n * 2 + 1) ≡ n * 2 + 1 = omega arith in
        rw (same, (odd_double n).0, (odd_double n).1) refl)

-- A character that is neither a backslash nor a quote nor ends the argument.
read_argument-plain :
    (q : Bool) (n c : ℕ) (t : List ℕ)
    → c == backslash ≡ false
    → c == quote ≡ false
    → (is_blank c && not q) ≡ false
    → read_argument q 0 (replicate n backslash ++ c ∷ t)
      ≡ before (replicate n backslash ++ c ∷ []) (read_argument q 0 t)
unfolding read_argument
read_argument-plain q n c t e f b =
    read_argument-replicate q 0 n (c ∷ t)
    ∙ (let same : 0 + n ≡ n = omega arith in rw (same, e, f, b) refl)

and_not-true : (b : Bool) → (b && not true) ≡ false
and_not-true true = refl
and_not-true false = refl

pub read_argument-append_quoted :
    (n : ℕ) (cs t : List ℕ)
    → StartsBlank t
    → read_argument true 0 (append_quoted n cs ++ t) ≡ (replicate n backslash ++ cs, t)
unfolding append_quoted
read_argument-append_quoted n [] t b =
    ap (read_argument true 0) (append_assoc (replicate (n * 2) backslash) (quote ∷ []) t)
    ∙ read_argument-double true n t
    ∙ ap (before (replicate n backslash)) (read_argument-StartsBlank 0 t b)
read_argument-append_quoted n (c ∷ cs) t b = elim (Bool-cases (c == backslash)) [
  | inl e ↦
      rw (e, append_quoted)
        (read_argument-append_quoted (n + 1) cs t b
          ∙ ap (λ l. (l, t))
              (sym (replicate-suc n cs)
                ∙ ap (λ x. replicate n backslash ++ x ∷ cs) (sym ((==_iff c backslash).0 e))))
  | inr e ↦ elim (Bool-cases (c == quote)) [
    | inl q ↦
        rw (e, q, append_quoted)
          (ap (read_argument true 0)
              (append_assoc (replicate (n * 2 + 1) backslash) (quote ∷ append_quoted 0 cs) t)
            ∙ read_argument-odd true n (append_quoted 0 cs ++ t)
            ∙ ap (before (replicate n backslash ++ quote ∷ []))
                (read_argument-append_quoted 0 cs t b)
            ∙ ap (λ l. (l, t)) (append_assoc (replicate n backslash) (quote ∷ []) cs)
            ∙ ap (λ x. (replicate n backslash ++ x ∷ cs, t)) (sym ((==_iff c quote).0 q)))
    | inr q ↦
        rw (e, q, append_quoted)
          (ap (read_argument true 0)
              (append_assoc (replicate n backslash) (c ∷ append_quoted 0 cs) t)
            ∙ read_argument-plain true n c (append_quoted 0 cs ++ t) e q (and_not-true (is_blank c))
            ∙ ap (before (replicate n backslash ++ c ∷ [])) (read_argument-append_quoted 0 cs t b)
            ∙ ap (λ l. (l, t)) (append_assoc (replicate n backslash) (c ∷ []) cs))
  ]
]

-- An argument that needs no quotes is read as it stands.
pub read_argument-unquoted :
    (n : ℕ) (cs t : List ℕ)
    → any is_to_quote cs ≡ false
    → StartsBlank t
    → read_argument false n (cs ++ t) ≡ (replicate n backslash ++ cs, t)
unfolding read_argument
read_argument-unquoted n [] t h b =
    read_argument-StartsBlank n t b ∙ ap (λ l. (l, t)) (sym (append-nil (replicate n backslash)))
read_argument-unquoted n (c ∷ cs) t h b = elim (Bool-cases (c == backslash)) [
  | inl e ↦ rw e (
      read_argument-unquoted (n + 1) cs t (ground arith) b
      ∙ ap (λ l. (l, t))
          (sym (replicate-suc n cs)
            ∙ ap (λ x. replicate n backslash ++ x ∷ cs) (sym ((==_iff c backslash).0 e))))
  | inr e ↦
      let plain : (c == quote) ≡ false = ground arith in
      let full : (is_blank c && not false) ≡ false = ground arith in
      rw (e, plain, full)
        (ap (before (replicate n backslash ++ c ∷ []))
            (read_argument-unquoted 0 cs t (ground arith) b)
          ∙ ap (λ l. (l, t)) (append_assoc (replicate n backslash) (c ∷ []) cs))
]
