-- ===== src/TestServer.antt =====
-- DummyContent of ogettest/server.go, the content that the test servers give out. Offsets and sizes
-- stay below 2^63. The digest in hexadecimal is an argument.
use oget.Prelude.{
  ℕ, zero, suc, ◌+◌, ◌-◌, ◌*◌, ◌%◌, ◌<◌, ◌≡◌, refl, min, Bool, true, false, Option, none, some, [],
  ◌∷◌, ◌++◌, arith, leb, if◌then◌else◌, length, get_or, Bool-cases, inl, inr, ap, ◌∙◌,
}
use oget.Prelude.Int.{ℤ, pos, negsuc, ◌+ℤ◌}
use oget.Prelude.Text.{Bytes}

pub record DummyContent : Type 0 where
  pub size : ℕ
  pub off : ℕ

-- The n bytes from the offset o on: each byte is its offset modulo 256.
abbrev pub bytes_from : ℕ → ℕ → Bytes
bytes_from o zero = []
bytes_from o (suc n) = o % 256 ∷ bytes_from (suc o) n

-- `at_end` is whether io.EOF is returned
pub record Chunk : Type 0 where
  pub got : Bytes
  pub at_end : Bool
  pub content : DummyContent

-- DummyContent.Read into a buffer of k bytes
unfoldable pub read_content : ℕ → DummyContent → Chunk
read_content k d =
    let n = min k (d.size - d.off) in
    if leb d.size d.off
    then record { got = []; at_end = true; content = d }
    else record { got = bytes_from d.off n; at_end = false; content = record d { off = d.off + n } }

pub data Whence : Type 0 where
  seek_start seek_current seek_end invalid : Whence

abbrev move_to : ℤ → DummyContent → Option (ℕ × DummyContent)
move_to (pos o) d = some (o, record d { off = o })
move_to (negsuc o) d = none

-- DummyContent.Seek: the new offset, `none` for an error
unfoldable pub seek_content : ℤ → Whence → DummyContent → Option (ℕ × DummyContent)
unfolding ◌+ℤ◌
seek_content offset seek_start d = move_to offset d
seek_content offset seek_current d = move_to (pos d.off +ℤ offset) d
seek_content offset seek_end d = move_to (pos d.size +ℤ offset) d
seek_content offset invalid d = none

-- The loop that reads until io.EOF into a buffer of k bytes; `none` is the end of the fuel.
unfoldable pub read_all : ℕ → ℕ → DummyContent → Option Bytes
unfolding read_content
read_all zero k d = none
read_all (suc fuel) k d =
    let r = read_content k d in
    if r.at_end
    then some []
    else elim (read_all fuel k r.content) [ none ↦ none | some bs ↦ some (r.got ++ bs) ]

-- CalculateSHA256, with fuel for its loop
unfoldable pub calculate_sha256 : (Bytes → Bytes) → ℕ → DummyContent → Option Bytes
unfolding read_all
calculate_sha256 digest fuel d =
    elim (read_all fuel (32 * 1024) (record { size = d.size; off = 0 })) [
      | none ↦ none
      | some bs ↦ some (digest bs)
    ]

bytes_from-append : (o m n : ℕ) → bytes_from o m ++ bytes_from (o + m) n ≡ bytes_from o (m + n)
bytes_from-append o zero n =
    ap (λ x. bytes_from x n) (omega arith) ∙ ap (bytes_from o) (omega arith)
bytes_from-append o (suc m) n =
    let joint : o + suc m ≡ suc o + m = omega arith in
    let more : suc (m + n) ≡ suc m + n = omega arith in
    ap (λ x. o % 256 ∷ (bytes_from (suc o) m ++ bytes_from x n)) joint
    ∙ ap (λ bs. o % 256 ∷ bs) (bytes_from-append (suc o) m n)
    ∙ ap (bytes_from o) more

length-bytes_from : (o n : ℕ) → length (bytes_from o n) ≡ n
length-bytes_from o zero = refl
length-bytes_from o (suc n) = ap suc (length-bytes_from (suc o) n)

get_or-bytes_from : (o n i : ℕ) → i < n → get_or (bytes_from o n) i 0 ≡ (o + i) % 256
get_or-bytes_from o zero i h = absurd (omega arith)
get_or-bytes_from o (suc n) zero h = ap (λ x. x % 256) (omega arith)
get_or-bytes_from o (suc n) (suc i) h =
    get_or-bytes_from (suc o) n i (omega arith) ∙ ap (λ x. x % 256) (omega arith)

read_all-bytes_from :
    (fuel k : ℕ) (d : DummyContent)
    → 0 < k
    → d.size - d.off < fuel
    → read_all fuel k d ≡ some (bytes_from d.off (d.size - d.off))
unfolding read_all read_content
read_all-bytes_from zero k d h lt = absurd (omega arith)
read_all-bytes_from (suc fuel) k d h lt = elim (Bool-cases (leb d.size d.off)) [
  | inl past ↦
      let nothing : 0 ≡ d.size - d.off = ground arith in
      rw past (ap (λ n. some (bytes_from d.off n)) nothing)
  | inr before ↦
      let inside : d.off < d.size = ground arith in
      let n = min k (d.size - d.off) in
      let rest = read_all-bytes_from fuel k (record d { off = d.off + n }) h (omega arith) in
      let whole : n + (d.size - (d.off + n)) ≡ d.size - d.off = omega arith in
      rw before (
        rw (rest, before)
          (ap some
            (bytes_from-append d.off n (d.size - (d.off + n)) ∙ ap (bytes_from d.off) whole)))
]

-- A content of a given size, whatever was read of it before. Whoever seeks to an offset and reads to the
-- end, with a buffer of whatever size, gets the bytes from there to the end, each of which is its
-- offset modulo 256. What is read from the start on has the digest that CalculateSHA256 gives,
-- which ends, as reading does, with one more round than there are bytes.
pub read_all_lem :
    (digest : Bytes → Bytes) (d : DummyContent) (o k fuel : ℕ)
    → 0 < k
    → d.size < fuel
    → (d' : DummyContent) × (seek_content (pos o) seek_start d ≡ some (o, d'))
      × ((bs : Bytes) × (read_all fuel k d' ≡ some bs)
          × (length bs ≡ d.size - o)
          × ((i : ℕ) → i < length bs → get_or bs i 0 ≡ (o + i) % 256)
          × (o ≡ 0 → calculate_sha256 digest fuel d ≡ some (digest bs)))
unfolding seek_content calculate_sha256
read_all_lem digest d o k fuel h lt =
    let bs = bytes_from o (d.size - o) in
    let count = length-bytes_from o (d.size - o) in
    (
      record d { off = o },
      refl,
      (
        bs,
        read_all-bytes_from fuel k (record d { off = o }) h (omega arith),
        count,
        λ i l. get_or-bytes_from o (d.size - o) i (omega (arith, count)),
        λ start. same start,
      ),
    )
  where
    same : o ≡ 0 → calculate_sha256 digest fuel d ≡ some (digest (bytes_from o (d.size - o)))
    same start =
        let all =
          read_all-bytes_from fuel (32 * 1024) (record { size = d.size; off = 0 }) (omega arith)
            (omega arith) in
        rw (start, all, calculate_sha256) refl
