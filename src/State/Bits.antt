-- ===== src/State/Bits.antt =====
-- The bits of a byte: what `b | 1 << k` and `b & 1 << j` are, checked over all bytes.
use Prim.Native.Nat.{bit_and, bit_or, bit_and-bitwise}
use oget.Prelude.{
  ℕ, zero, suc, ◌^◌, ◌<◌, ◌≤◌, ◌+◌, Bool-cases, inl, inr, false, ◌≡◌, refl, Bool, true, not, ◌&&◌,
  arith, ltb, ◌==◌, if◌then◌else◌, ltb→lt,
}

-- whether p holds of the n numbers from i on
holds_from : (ℕ → Bool) → ℕ → ℕ → Bool
holds_from p i zero = true
holds_from p i (suc n) = if p i then holds_from p (suc i) n else false

holds_from_at :
    (p : ℕ → Bool) (i n x : ℕ) → holds_from p i n ≡ true → i ≤ x → x < i + n → p x ≡ true
unfolding holds_from
holds_from_at p i zero x h low high = absurd (omega arith)
holds_from_at p i (suc n) x h low high = elim (Bool-cases (p i)) [
  | inr bad ↦ absurd (ground arith)
  | inl good ↦ elim (Bool-cases (i == x)) [
    | inl here ↦ ground arith
    | inr later ↦ holds_from_at p (suc i) n x (ground arith) (ground arith) (omega arith)
  ]
]

abbrev holds_below : ℕ → (ℕ → Bool) → Bool
holds_below n p = holds_from p 0 n

holds_below_at : (n : ℕ) (p : ℕ → Bool) (x : ℕ) → holds_below n p ≡ true → x < n → p x ≡ true
holds_below_at n p x h lt = holds_from_at p 0 n x h (omega arith) (omega arith)

abbrev has_bit : ℕ → ℕ → Bool
has_bit b j = not (bit_and b (2 ^ j) == 0)

abbrev agree : Bool → Bool → Bool
agree a b = if a then b else not b

agree_sound : (a b : Bool) → agree a b ≡ true → a ≡ b
agree_sound a b h = ground arith

abbrev or_law : ℕ → ℕ → ℕ → Bool
or_law b k j = agree (has_bit (bit_or b (2 ^ k)) j) (if k == j then true else has_bit b j)

or_table :
    holds_below 256
      (λ b. holds_below 8 (λ k. ltb (bit_or b (2 ^ k)) 256 && holds_below 8 (or_law b k)))
    ≡ true
unfolding holds_from
or_table = refl

abbrev or_row : ℕ → ℕ → Bool
or_row b k = ltb (bit_or b (2 ^ k)) 256 && holds_below 8 (or_law b k)

row : (b k : ℕ) → b < 256 → k < 8 → or_row b k ≡ true
row b k hb hk =
    holds_below_at 8 (or_row b) k (holds_below_at 256 (λ x. holds_below 8 (or_row x)) b or_table hb)
      hk

and_left : (a b : Bool) → (a && b) ≡ true → a ≡ true
and_left a b h = ground arith

and_right : (a b : Bool) → (a && b) ≡ true → b ≡ true
and_right a b h = ground arith

-- Setting a bit of a byte leaves a byte.
pub bit_or_lt : (b k : ℕ) → b < 256 → k < 8 → bit_or b (2 ^ k) < 256
bit_or_lt b k hb hk = ltb→lt _ 256 (and_left _ (holds_below 8 (or_law b k)) (row b k hb hk))

-- Setting bit k of a byte makes bit k be set, and leaves the others.
pub bit_and-bit_or :
    (b k j : ℕ)
    → b < 256
    → k < 8
    → j < 8
    → not (bit_and (bit_or b (2 ^ k)) (2 ^ j) == 0)
      ≡ (if k == j then true else not (bit_and b (2 ^ j) == 0))
bit_and-bit_or b k j hb hk hj =
    agree_sound _ _ (
      holds_below_at 8 (or_law b k) j (and_right (ltb (bit_or b (2 ^ k)) 256) _ (row b k hb hk)) hj)

-- No bit of the byte 0 is set.
pub bit_and_zero : (j : ℕ) → bit_and 0 (2 ^ j) ≡ 0
bit_and_zero j = bit_and-bitwise 0 (2 ^ j)
