-- ===== src/Storage/Mapping.antt =====
-- NewMmapStorageHandler, Close and Sync of pkg/oget/mmap_storage.go, and the other operations on a
-- handler that may be closed. The answers of munmap, msync and File.Close are arguments.
use oget.Prelude.{
  ℕ, ◌≡◌, refl, Bool, true, false, Option, none, some, [], arith, leb, if◌then◌else◌, Bool-cases,
  inl, inr, ap,
}
use oget.Prelude.Int.{ℤ, pos, negsuc}
use oget.Prelude.Text.{Bytes}
use oget.File.{File}
use oget.Reader.{eof, Reader}
use oget.Storage.{mapped, Transfer, read_at_from}
use oget.Storage.Mapped.{Written, map_write, Copied, map_read}

-- The file, whether it is open, and the length of h.data, `none` where it is nil.
pub record Mapping : Type 0 where
  pub contents : File
  pub is_open : Bool
  pub window : Option ℕ

-- len(h.data)
abbrev pub window_length : Option ℕ → ℕ
window_length none = 0
window_length (some n) = n

-- NewMmapStorageHandler, `none` with its error
unfoldable pub new_mapping : Bool → File → ℤ → Option Mapping
new_mapping answer f (negsuc m) = none
new_mapping answer f (pos n) =
    if leb n 0
    then none
    else if answer
    then some (record { contents = f; is_open = true; window = some n })
    else none

-- WriteAt and ReadAt, at an offset of either sign
unfoldable pub write_mapping : Mapping → ℤ → Bytes → Written
unfolding map_write
write_mapping m (negsuc o) p = record { n = 0; short = true; file = m.contents }
write_mapping m (pos o) p = map_write (window_length m.window) m.contents o p

unfoldable pub read_mapping : Mapping → ℤ → ℕ → Copied
unfolding map_read
read_mapping m (negsuc o) k = record { got = []; at_end = true }
read_mapping m (pos o) k = map_read (window_length m.window) m.contents o k

-- ReadAtFrom
unfoldable pub fill_mapping : Mapping → Reader → ℤ → ℕ → Transfer
unfolding read_at_from
fill_mapping m r (negsuc o) count = record {
  n = 0;
  error = some eof;
  storage = mapped m.contents (window_length m.window);
  reader = r;
}
fill_mapping m r (pos o) count = read_at_from (mapped m.contents (window_length m.window)) r o count

-- File.Close, which fails on a closed file
abbrev close_file : Bool → Mapping → Bool × Mapping
close_file closed m = if m.is_open then (closed, record m { is_open = false }) else (false, m)

-- Close: whether it returns no error, and the handler behind it
unfoldable pub close_mapping : Bool → Bool → Mapping → Bool × Mapping
close_mapping unmapped closed m = elim m.window [
  | none ↦ close_file closed m
  | some n ↦ if unmapped then close_file closed (record m { window = none }) else (false, m)
]

-- Sync: whether it returns no error, and whether it calls msync
unfoldable pub sync_mapping : Bool → Mapping → Bool × Bool
sync_mapping synced m = elim m.window [ none ↦ (true, false) | some n ↦ (synced, true) ]

-- a handler without its memory
abbrev IsQuiet : File → Mapping → Type 0
IsQuiet f m = (m.window ≡ none) × (m.contents ≡ f)

module _ (f : File) (m : Mapping) (q : IsQuiet f m) where
  write_quiet :
      (off : ℤ) (p : Bytes) → write_mapping m off p ≡ record { n = 0; short = true; file = f }
  unfolding write_mapping
  write_quiet (negsuc o) p = rw q.1 refl
  write_quiet (pos o) p = rw (q.0, q.1) (ground arith)

  read_quiet : (off : ℤ) (k : ℕ) → read_mapping m off k ≡ record { got = []; at_end = true }
  unfolding read_mapping
  read_quiet (negsuc o) k = refl
  read_quiet (pos o) k = rw (q.0, q.1) (ground arith)

  fill_quiet :
      (r : Reader) (off : ℤ) (count : ℕ)
      → fill_mapping m r off count
        ≡ record { n = 0; error = some eof; storage = mapped f 0; reader = r }
  unfolding fill_mapping
  fill_quiet r (negsuc o) count = rw (q.0, q.1) refl
  fill_quiet r (pos o) count = rw (q.0, q.1) (ground arith)

closed_behind :
    (closed : Bool) (m : Mapping) (n : ℕ)
    → m.window ≡ some n
    → let m' = (close_mapping true closed m).1 in
      IsQuiet m.contents m' × (m.is_open ≡ true → m'.is_open ≡ false)
unfolding close_mapping
closed_behind closed m n w = elim (Bool-cases m.is_open) [
  | inl y ↦ ((ground arith, ground arith), λ z. ground arith)
  | inr z ↦ ((ground arith, ground arith), λ y. cc)
]

-- A Close whose munmap fails returns an error and changes nothing. After any other Close the memory
-- is not touched again: WriteAt and ReadAt at every offset, ReadAtFrom and Sync find no bytes, change
-- neither the file nor the reader, and return io.ErrShortWrite, io.EOF, io.EOF and nil, and
-- a second Close returns an error.
pub close_mapping_safe :
    (closed : Bool) (m : Mapping)
    → (n : ℕ) → m.window ≡ some n
    → (close_mapping false closed m ≡ (false, m))
      × (let m' = (close_mapping true closed m).1 in
          ((off : ℤ) (p : Bytes)
            → write_mapping m' off p ≡ record { n = 0; short = true; file = m.contents })
          × ((off : ℤ) (k : ℕ) → read_mapping m' off k ≡ record { got = []; at_end = true })
          × ((r : Reader) (off : ℤ) (count : ℕ)
              → ((fill_mapping m' r off count).n ≡ 0)
                × ((fill_mapping m' r off count).error ≡ some eof)
                × ((fill_mapping m' r off count).storage ≡ mapped m.contents 0)
                × ((fill_mapping m' r off count).reader ≡ r))
          × ((synced : Bool) → sync_mapping synced m' ≡ (true, false))
          × (m.is_open ≡ true
              → (unmapped again : Bool) → (close_mapping unmapped again m').0 ≡ false))
unfolding close_mapping write_mapping read_mapping fill_mapping sync_mapping
close_mapping_safe closed m n w =
    let (quiet, shut) = closed_behind closed m n w in
    let m' = (close_mapping true closed m).1 in
    (
      ground arith,
      (
        write_quiet m.contents m' quiet,
        read_quiet m.contents m' quiet,
        λ r off count.
            let e = fill_quiet m.contents m' quiet r off count in
            (ap Transfer.n e, ap Transfer.error e, ap Transfer.storage e, ap Transfer.reader e),
        λ synced. ground (arith, quiet.0),
        λ was_open unmapped again. ground (arith, quiet.0, shut was_open),
      ),
    )
