-- ===== src/Storage/Mapped.antt =====
-- MmapStorageHandler.WriteAt and ReadAt of pkg/oget/mmap_storage.go, over the first `len` bytes of a
-- file, at an offset that is not negative.
use oget.Prelude.{
  ℕ, ◌+◌, ◌-◌, ◌≤◌, ◌<◌, ◌≡◌, refl, min, Bool, true, false, arith, ltb, leb, if◌then◌else◌, length,
  take, length-take, take_all, Bool-cases, inl, inr, ap, sym, ◌∙◌, ◌⊎◌, ◌↔◌, [],
}
use oget.Prelude.Text.{Bytes}
use oget.File.{File, write_at, slice, slice-write_at, byte-write_at_outside}

-- `short` is whether io.ErrShortWrite is returned.
pub record Written : Type 0 where
  pub n : ℕ
  pub short : Bool
  pub file : File

unfoldable pub map_write : ℕ → File → ℕ → Bytes → Written
map_write len f off p =
    if leb len off
    then record { n = 0; short = true; file = f }
    else if ltb len (off + length p)
    then record { n = len - off; short = true; file = write_at f off (take (len - off) p) }
    else record { n = length p; short = false; file = write_at f off p }

-- `at_end` is whether io.EOF is returned; `got` are the bytes that were copied into a buffer of k.
pub record Copied : Type 0 where
  pub got : Bytes
  pub at_end : Bool

unfoldable pub map_read : ℕ → File → ℕ → ℕ → Copied
map_read len f off k =
    if leb len off
    then record { got = []; at_end = true }
    else if ltb len (off + k)
    then record { got = slice f off (len - off); at_end = true }
    else record { got = slice f off k; at_end = false }

-- WriteAt of a mapped file, then ReadAt of as many bytes at the same offset within the mapping: the
-- bytes that are read are those that were written, the longest part of the buffer that fits the
-- mapping; io.ErrShortWrite is returned exactly where that is not the whole buffer; and no byte
-- elsewhere in the file, the part past the mapping included, is changed.
pub map_read-map_write :
    (len : ℕ) (f : File) (off : ℕ) (p : Bytes)
    → off < len
    → let w = map_write len f off p in
      (w.n ≡ min (length p) (len - off))
      × (map_read len w.file off w.n ≡ record { got = take w.n p; at_end = false })
      × ((w.short ≡ true) ↔ (w.n < length p))
      × ((i : ℕ) → (i < off) ⊎ (off + w.n ≤ i) → w.file.byte i ≡ f.byte i)
unfolding map_write map_read
map_read-map_write len f off p h =
    let inside : leb len off ≡ false = ground arith in
    elim (Bool-cases (ltb len (off + length p))) [
      | inl over ↦
          let k = len - off in
          let cut : length (take k p) ≡ k = ground (arith, length-take k p) in
          let fits : ltb len (off + k) ≡ false = ground arith in
          let back : slice (write_at f off (take k p)) off k ≡ take k p =
            ap (slice (write_at f off (take k p)) off) (sym cut)
            ∙ slice-write_at f off (take k p) in
          rw (inside, over, fits)
            (
              ground arith,
              ap (λ b. record { got = b; at_end = false }) back,
              (λ e. ground arith, λ e. refl),
              λ i o. byte-write_at_outside f off (take k p) i (rw cut o),
            )
      | inr whole ↦
          rw (inside, whole)
            (
              ground arith,
              rw whole (
                  ap (λ b. record { got = b; at_end = false })
                    (slice-write_at f off p ∙ sym (take_all (length p) p (omega arith)))),
              (λ e. cc, λ e. absurd (omega arith)),
              λ i o. byte-write_at_outside f off p i o,
            )
    ]
