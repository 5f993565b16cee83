-- ===== src/HumanSize.antt =====
-- humanizeSize of pkg/oget/util.go. What %.2f prints for a quotient of floating-point numbers is left
-- out: the model keeps the quotient itself.
use oget.Prelude.{
  ℕ, zero, suc, ◌*◌, ◌/◌, ◌%◌, ◌^◌, ◌≤◌, ◌<◌, ◌≡◌, refl, false, Option, none, some, List, [], ◌∷◌,
  arith, ltb, leb, if◌then◌else◌, length, get_or, Bool-cases, inl, inr,
}
use oget.Prelude.Int.{ℤ, pos, negsuc}
use oget.Prelude.Text.{Bytes, codes}

-- "%d B" of a number, or "%.2f %cB" of numerator / denominator and a letter
pub data Readable : Type 0 where
  plain : ℤ → Readable
  scaled : ℕ → ℕ → ℕ → Readable

abbrev pub size_unit : ℕ
size_unit = 1024

abbrev pub unit_letters : Bytes
unit_letters = codes "KMGTPE"

-- The loop, from n, div and exp; the product wraps as the bits of an int64 do. `none` where the fuel
-- runs out.
unfoldable pub size_loop : ℕ → ℕ → ℕ → ℕ → Option (ℕ × ℕ)
size_loop zero n div exp = none
size_loop (suc k) n div exp =
    let rest = size_loop k (n / size_unit) ((div * size_unit) % 2 ^ 64) (suc exp) in
    if leb size_unit n then rest else some (div, exp)

-- "KMGTPE"[exp]: `none` is the panic of an index out of range
abbrev letter_at : ℕ → Option ℕ
letter_at exp = if ltb exp (length unit_letters) then some (get_or unit_letters exp 0) else none

-- humanizeSize; each round of the loop takes ten of the 64 bits
unfoldable pub humanize_size : ℤ → Option Readable
unfolding size_loop
humanize_size (negsuc m) = some (plain (negsuc m))
humanize_size (pos n) =
    if ltb n size_unit
    then some (plain (pos n))
    else elim (size_loop 7 (n / size_unit) size_unit 0) [
      | none ↦ none
      | some (div, exp) ↦ elim (letter_at exp) [ none ↦ none | some c ↦ some (scaled n div c) ]
    ]

-- the denominator that goes with each letter
abbrev pub denominators : List ℕ
denominators =
    1024 ∷ 1048576 ∷ 1073741824 ∷ 1099511627776 ∷ 1125899906842624 ∷ 1152921504606846976 ∷ []

-- For every int64 that is at least 1024, the loop ends, the index into the letters is in range and
-- the product does not overflow: the result has the letter k of six and the denominator 1024^(k + 1),
-- and the quotient lies between 1 and 1024.
pub humanize_size_lem :
    (n : ℕ)
    → 1024 ≤ n
    → n < 2 ^ 63
    → (k : ℕ) × (k < length unit_letters)
      × (humanize_size (pos n)
          ≡ some (scaled n (get_or denominators k 0) (get_or unit_letters k 0)))
      × (get_or denominators k 0 ≤ n)
      × (n < 1024 * get_or denominators k 0)
unfolding humanize_size
humanize_size_lem n big fits =
    let n1 = n / 1024 in
    let n2 = n1 / 1024 in
    let n3 = n2 / 1024 in
    let n4 = n3 / 1024 in
    let n5 = n4 / 1024 in
    let n6 = n5 / 1024 in
    let low : ltb n 1024 ≡ false = ground arith in
    elim (Bool-cases (leb 1024 n1)) [
      | inr e1 ↦ (0, omega arith, rw (low, e1) refl, omega arith, ground arith)
      | inl m1 ↦ elim (Bool-cases (leb 1024 n2)) [
        | inr e2 ↦ (1, omega arith, rw (low, m1, e2) refl, ground arith, ground arith)
        | inl m2 ↦ elim (Bool-cases (leb 1024 n3)) [
          | inr e3 ↦ (2, omega arith, rw (low, m1, m2, e3) refl, ground arith, ground arith)
          | inl m3 ↦ elim (Bool-cases (leb 1024 n4)) [
            | inr e4 ↦ (3, omega arith, rw (low, m1, m2, m3, e4) refl, ground arith, ground arith)
            | inl m4 ↦ elim (Bool-cases (leb 1024 n5)) [
              | inr e5 ↦
                  (4, omega arith, rw (low, m1, m2, m3, m4, e5) refl, ground arith, ground arith)
              | inl m5 ↦
                  let e6 : leb 1024 n6 ≡ false = ground arith in
                  (
                    5,
                    omega arith,
                    rw (low, m1, m2, m3, m4, m5, e6) refl,
                    ground arith,
                    ground arith,
                  )
            ]
          ]
        ]
      ]
    ]
