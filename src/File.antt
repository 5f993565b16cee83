-- ===== src/File.antt =====
-- An open file of package os: its size and the byte at each offset. A byte past the end is 0.
use oget.Prelude.{
  ℕ, zero, suc, ◌+◌, ◌-◌, ◌≤◌, ◌<◌, max, ◌≡◌, refl, [], ◌∷◌, arith, ltb, leb, ◌&&◌, if◌then◌else◌,
  length, [], get_or, list_ext, get_or-append, length-append, ◌⊎◌, ◌++◌,
}
use native.Mathlib.Nat.{add-sub_cancel_left, sub-add-eq, zero-add, add-zero, suc-add, add-suc}
use oget.Prelude.Text.{Bytes}

pub record File : Type 0 where
  pub size : ℕ
  pub byte : ℕ → ℕ

-- os.OpenFile with O_CREATE, where no file is there
abbrev pub created : File
created = record { size = 0; byte = λ _. 0 }

-- WriteAt, with every byte written
unfoldable pub write_at : File → ℕ → Bytes → File
write_at f off p = record {
  size = max f.size (off + length p);
  byte = λ i. if leb off i && ltb i (off + length p) then get_or p (i - off) 0 else f.byte i;
}

-- Truncate: what lies past the new end is gone, and a new part reads as zeros
unfoldable pub truncate : File → ℕ → File
truncate f n = record { size = n; byte = λ i. if ltb i n && ltb i f.size then f.byte i else 0 }

-- the n bytes at an offset
unfoldable pub slice : File → ℕ → ℕ → Bytes
slice f off zero = []
slice f off (suc n) = f.byte off ∷ slice f (suc off) n

pub length-slice : (f : File) (off n : ℕ) → length (slice f off n) ≡ n
unfolding slice
length-slice f off zero = refl
length-slice f off (suc n) = omega (arith, length-slice f (suc off) n)

pub get_or-slice : (f : File) (off n i : ℕ) → i < n → get_or (slice f off n) i 0 ≡ f.byte (off + i)
unfolding slice
get_or-slice f off zero i h = absurd (omega arith)
get_or-slice f off (suc n) zero h = ground arith
get_or-slice f off (suc n) (suc i) h = ground (arith, get_or-slice f (suc off) n i)

-- Two files that agree on a range have the same slice of it.
pub slice_congr :
    (f g : File) (off n : ℕ)
    → ((i : ℕ) → off ≤ i → i < off + n → f.byte i ≡ g.byte i)
    → slice f off n ≡ slice g off n
unfolding slice
slice_congr f g off zero h = refl
slice_congr f g off (suc n) h = ground (
  arith,
  h off (omega arith) (omega arith),
  slice_congr f g (suc off) n (λ i a b. h i (omega arith) (omega arith)),
)

get_or-slice-write_at :
    (f : File) (off : ℕ) (p : Bytes) (i : ℕ)
    → i < length p
    → get_or (slice (write_at f off p) off (length p)) i 0 ≡ get_or p i 0
unfolding write_at
get_or-slice-write_at f off p i h =
    ground (arith, get_or-slice (write_at f off p) off (length p) i h, add-sub_cancel_left off i)

-- What was written at an offset is read back from it.
pub slice-write_at : (f : File) (off : ℕ) (p : Bytes) → slice (write_at f off p) off (length p) ≡ p
slice-write_at f off p =
    let n = length-slice (write_at f off p) off (length p) in
    list_ext _ p 0 n (λ i h. get_or-slice-write_at f off p i (omega (arith, n)))

-- A write changes no byte outside its range.
pub byte-write_at_outside :
    (f : File) (off : ℕ) (p : Bytes) (i : ℕ)
    → (i < off) ⊎ (off + length p ≤ i)
    → (write_at f off p).byte i ≡ f.byte i
unfolding write_at
byte-write_at_outside f off p i h = ground arith

-- Inside its range a write puts its bytes.
pub byte-write_at_inside :
    (f : File) (off : ℕ) (p : Bytes) (i : ℕ)
    → i < length p
    → (write_at f off p).byte (off + i) ≡ get_or p i 0
unfolding write_at
byte-write_at_inside f off p i h = ground (arith, add-sub_cancel_left off i)

-- A slice in two parts.
pub slice-add :
    (f : File) (off m n : ℕ) → slice f off (m + n) ≡ slice f off m ++ slice f (off + m) n
unfolding slice
slice-add f off zero n = rw (zero-add n, add-zero off)
slice-add f off (suc m) n =
    rw (suc-add m n) (rw (slice-add f (suc off) m n, suc-add off m, add-suc off m))

-- Two files with the same bytes; their sizes may differ.
abbrev pub Alike : File → File → Type 0
Alike f g = (i : ℕ) → f.byte i ≡ g.byte i

pub Alike-write_at_nil : (f : File) (x : ℕ) → Alike f (write_at f x [])
unfolding write_at
Alike-write_at_nil f x i = ground arith

-- Two writes, the second where the first ends, are one write.
pub Alike-write_at-append :
    (f g h : File) (x : ℕ) (a b : Bytes)
    → Alike g (write_at f x a)
    → Alike h (write_at g (x + length a) b)
    → Alike h (write_at f x (a ++ b))
unfolding write_at
Alike-write_at-append f g h x a b p q i =
    ground
      (arith, p i, q i, get_or-append a b (i - x) 0, length-append a b, sub-add-eq i x (length a))
