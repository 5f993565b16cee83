-- ===== src/State/Count.antt =====
-- PercentComplete: its loop over the bytes counts the finished chunks.
use Prim.Native.Nat.{bit_and}
use oget.Prelude.{
  ℕ, zero, suc, ◌+◌, ◌*◌, ◌/◌, ◌%◌, ◌^◌, ◌<◌, ◌≤◌, ◌≡◌, refl, Bool, false, not, some, [], ◌∷◌,
  arith, ◌==◌, if◌then◌else◌, length, lt→ltb, ap, ◌∙◌, ◌-◌,
}
use native.Mathlib.Nat.{zero-add, add-zero, suc-add, add-suc}
use oget.Prelude.Int.{pos}
use oget.Prelude.Text.{Bytes}
use oget.State.{Info, Bitset, test_bit, is_complete, count_bits, count_complete, percent_complete}
use oget.State.Sizes.{chunks, num_chunks_pos}
use oget.State.Mark.{opened}

-- how many of the n numbers from i on pass a test
abbrev pub tally : (ℕ → Bool) → ℕ → ℕ → ℕ
tally p i zero = 0
tally p i (suc n) = (if p i then 1 else 0) + tally p (suc i) n

tally_congr :
    (p q : ℕ → Bool) (i n : ℕ)
    → ((k : ℕ) → i ≤ k → k < i + n → p k ≡ q k)
    → tally p i n ≡ tally q i n
tally_congr p q i zero h = refl
tally_congr p q i (suc n) h = ground (
  arith,
  h i (omega arith) (omega arith),
  tally_congr p q (suc i) n (λ k a b. h k (omega arith) (omega arith)),
)

tally-add : (p : ℕ → Bool) (i m n : ℕ) → tally p i (m + n) ≡ tally p i m + tally p (i + m) n
tally-add p i zero n = rw (zero-add n, add-zero i) (omega arith)
tally-add p i (suc m) n =
    rw (suc-add m n, add-suc i m)
      (omega (arith, tally-add p (suc i) m n, ap (λ k. tally p k n) (suc-add i m)))

tally-shift :
    (p q : ℕ → Bool) (d i n : ℕ) → ((k : ℕ) → p (d + k) ≡ q k) → tally p (d + i) n ≡ tally q i n
tally-shift p q d i zero h = refl
tally-shift p q d i (suc n) h = ground (arith, h i, tally-shift p q d (suc i) n h, add-suc d i)

abbrev byte_bit : ℕ → ℕ → Bool
byte_bit b j = not (bit_and b (2 ^ j) == 0)

count_bits-tally : (b i n : ℕ) → count_bits b i n ≡ tally (byte_bit b) i n
unfolding count_bits
count_bits-tally b i zero = refl
count_bits-tally b i (suc n) = rw (count_bits-tally b (suc i) n)

test_bit-head : (b : ℕ) (bits : Bytes) (k : ℕ) → k < 8 → test_bit (b ∷ bits) k ≡ byte_bit b k
unfolding test_bit
test_bit-head b bits k h =
    let q : k / 8 ≡ 0 = omega arith in let r : k % 8 ≡ k = omega arith in rw (q, r)

test_bit-tail : (b : ℕ) (bits : Bytes) (k : ℕ) → test_bit (b ∷ bits) (8 + k) ≡ test_bit bits k
unfolding test_bit
test_bit-tail b bits k =
    let q : (8 + k) / 8 ≡ suc (k / 8) = omega arith in
    let r : (8 + k) % 8 ≡ k % 8 = omega arith in rw (q, r)

count_complete-tally :
    (bits : Bytes) → count_complete bits ≡ tally (test_bit bits) 0 (8 * length bits)
unfolding count_complete
count_complete-tally [] = refl
count_complete-tally (b ∷ bits) =
    let e : 8 * suc (length bits) ≡ 8 + 8 * length bits = omega arith in
    rw e (
      omega (
        arith,
        count_complete-tally bits,
        count_bits-tally b 0 8,
        tally_congr (test_bit (b ∷ bits)) (byte_bit b) 0 8
            (λ k l h. test_bit-head b bits k (omega arith)),
        tally-add (test_bit (b ∷ bits)) 0 8 (8 * length bits),
        tally-shift (test_bit (b ∷ bits)) (test_bit bits) 8 0 (8 * length bits)
            (test_bit-tail b bits),
      ))

is_complete-tally :
    (i : Info) (b : Bitset)
    → tally (test_bit b.bits) 0 (8 * length b.bits)
      ≡ tally (is_complete (opened i b)) 0 (8 * length b.bits)
is_complete-tally i b =
    tally_congr _ _ 0 (8 * length b.bits)
      (λ k l h. unfold is_complete in rw (lt→ltb (k / 8) (length b.bits) (omega arith)))

percent_complete-ids :
    (i : Info) (b : Bitset) (n c : ℕ)
    → i.file_size ≡ pos n
    → i.chunk_size ≡ pos c
    → 0 < c
    → n + c + 8 < 2 ^ 63
    → 0 < n
    → percent_complete (opened i b)
      ≡ some (tally (is_complete (opened i b)) 0 (8 * length b.bits), pos (chunks n c))
unfolding percent_complete
percent_complete-ids i b n c e e' hc lt hn =
    rw (e, e', num_chunks_pos n c hc lt)
      (ground (arith, count_complete-tally b.bits, is_complete-tally i b))

tally_nothing :
    (p : ℕ → Bool) (i n : ℕ) → ((k : ℕ) → i ≤ k → k < i + n → p k ≡ false) → tally p i n ≡ 0
tally_nothing p i zero h = refl
tally_nothing p i (suc n) h = ground (
  arith,
  h i (omega arith) (omega arith),
  tally_nothing p (suc i) n (λ k a b. h k (omega arith) (omega arith)),
)

-- PercentComplete of an open state of a file of n > 0 bytes, in chunks of c > 0 bytes and within
-- int64, is the number of chunks for which IsComplete holds, over the number of chunks. The bitset
-- has room for all chunks, and no bit behind the last chunk is set; such a bit would be counted too.
pub percent_complete-tally :
    (i : Info) (b : Bitset) (n c : ℕ)
    → i.file_size ≡ pos n
    → i.chunk_size ≡ pos c
    → 0 < n
    → 0 < c
    → n + c + 8 < 2 ^ 63
    → chunks n c ≤ 8 * length b.bits
    → ((k : ℕ) → chunks n c ≤ k → is_complete (opened i b) k ≡ false)
    → percent_complete (opened i b)
      ≡ some (tally (is_complete (opened i b)) 0 (chunks n c), pos (chunks n c))
percent_complete-tally i b n c e e' hn hc lt room clear =
    let p = is_complete (opened i b) in
    let padding = 8 * length b.bits - chunks n c in
    let all : tally p 0 (8 * length b.bits) ≡ tally p 0 (chunks n c) =
      ap (tally p 0) (omega arith)
      ∙ tally-add p 0 (chunks n c) padding
      ∙ omega
          (arith, tally_nothing p (0 + chunks n c) padding (λ k a below. clear k (omega arith))) in
    percent_complete-ids i b n c e e' hc lt hn ∙ ap (λ k. some (k, pos (chunks n c))) all
