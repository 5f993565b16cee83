-- ===== src/State/Stored.antt =====
-- What the state file holds while a download runs: the metadata of the last Save, and the bitset.
use oget.Prelude.{
  ℕ, ◌+◌, ◌-◌, ◌/◌, ◌<◌, ◌≤◌, ◌≡◌, ◌⊎◌, inr, Bool, true, some, ◌++◌, arith, length, length-set,
  le→leb, ap, ◌∙◌,
}
use oget.Prelude.Int.{pos}
use oget.Prelude.Text.{Bytes}
use oget.File.{File, write_at, slice, slice_congr, byte-write_at_outside, slice-add, slice-write_at}
use native.Mathlib.Nat.{zero-add}
use oget.State.{
  Info, Bitset, Codec, Answers, ok, state_header_size, num_chunks, num_bytes, set_bit, save,
}
use oget.State.Mark.{IsMirrored, set_bit-IsMirrored, opened, bits-set_bit}

-- Documented behaviour of the cbor package: an encoded item is decoded to its fields, whatever
-- follows it, with the time cut to the precision that the encoding keeps.
pub record IsFaithful (codec : Codec) : Type 0 where
  pub decode-marshal :
      (i : Info) (d rest : Bytes)
      → codec.marshal i ≡ some d
      → codec.decode (d ++ rest) ≡ some (record i { updated_at = codec.stored_time i.updated_at })

-- The file of an open state holds the metadata `kept` and every bit.
pub record IsStored (codec : Codec) (kept : Info) (b : Bitset) : Type 0 where
  pub mirrored : IsMirrored b
  pub header : Bytes
  pub rest : Bytes
  pub encoded : codec.marshal kept ≡ some header
  pub at_start : slice b.file 0 state_header_size ≡ header ++ rest
  pub long : state_header_size ≤ b.file.size
  pub chunk_count : ℕ
  pub counted : num_chunks kept.file_size kept.chunk_size ≡ some (pos chunk_count)
  pub sized : num_bytes (pos chunk_count) ≡ some (pos (length b.bits))

byte-set_bit_header :
    (w : Bool) (b : Bitset) (id i : ℕ)
    → i < state_header_size
    → (set_bit w b id).file.byte i ≡ b.file.byte i
unfolding set_bit write_at
byte-set_bit_header w b id i h = ground arith

header-set_bit :
    (w : Bool) (b : Bitset) (id : ℕ)
    → slice (set_bit w b id).file 0 state_header_size ≡ slice b.file 0 state_header_size
header-set_bit w b id =
    slice_congr _ _ 0 state_header_size (λ i l h. byte-set_bit_header w b id i (omega arith))

size-set_bit : (w : Bool) (b : Bitset) (id : ℕ) → b.file.size ≤ (set_bit w b id).file.size
unfolding set_bit write_at
size-set_bit w b id = ground arith

module _ {codec : Codec} {kept : Info} where
  pub IsStored-set_bit :
      (w : Bool) (b : Bitset) (id : ℕ)
      → id / 8 < length b.bits
      → (b.is_mmap ≡ true) ⊎ (w ≡ true)
      → IsStored codec kept b
      → IsStored codec kept (set_bit w b id)
  IsStored-set_bit w b id lt h s = record {
    mirrored = set_bit-IsMirrored w b id lt h s.mirrored;
    header = s.header;
    rest = s.rest;
    encoded = s.encoded;
    at_start = rw (header-set_bit w b id) s.at_start;
    long = omega (arith, size-set_bit w b id, s.long);
    chunk_count = s.chunk_count;
    counted = s.counted;
    sized = rw (bits-set_bit w b id, length-set b.bits (id / 8)) s.sized;
  }

byte-header :
    (f : File) (d : Bytes) (i : ℕ)
    → length d ≤ state_header_size
    → (write_at f 0 d).byte (state_header_size + i) ≡ f.byte (state_header_size + i)
byte-header f d i h = byte-write_at_outside f 0 d (state_header_size + i) (inr (omega arith))

header-write_at :
    (f : File) (d : Bytes)
    → length d ≤ state_header_size
    → slice (write_at f 0 d) 0 state_header_size
      ≡ d ++ slice (write_at f 0 d) (length d) (state_header_size - length d)
header-write_at f d h =
    let e : state_header_size ≡ length d + (state_header_size - length d) = omega arith in
    ap (slice (write_at f 0 d) 0) e
    ∙ slice-add (write_at f 0 d) 0 (length d) (state_header_size - length d)
    ∙ rw (slice-write_at f 0 d, zero-add (length d))

-- the bitset after a Save that wrote `d`
abbrev pub with_header : Bitset → Bytes → Bitset
with_header b d = record b { file = write_at b.file 0 d }

-- Every call of the operating system that Save makes succeeds.
abbrev pub CanSave : Answers → Type 0
CanSave os = (os.written ≡ true) × (os.synced ≡ true)

-- An open state whose encoding fits is saved, and the file then holds its metadata.
pub save-opened :
    (codec : Codec) (os : Answers) (i : Info) (b : Bitset) (d : Bytes)
    → CanSave os
    → codec.marshal i ≡ some d
    → length d ≤ state_header_size
    → save codec os (opened i b) ≡ ok (opened i (with_header b d))
unfolding save
save-opened codec os i b d (w, s) e h = rw (e, le→leb _ _ h, w, s)

pub IsStored-with_header :
    {codec : Codec} (i : Info) (b : Bitset) (d : Bytes) (n : ℕ)
    → IsMirrored b
    → state_header_size ≤ b.file.size
    → codec.marshal i ≡ some d
    → length d ≤ state_header_size
    → num_chunks i.file_size i.chunk_size ≡ some (pos n)
    → num_bytes (pos n) ≡ some (pos (length b.bits))
    → IsStored codec i (with_header b d)
IsStored-with_header i b d n m l e h c z = record {
  mirrored = record {
    are_bytes = m.are_bytes;
    on_file = λ j lt. byte-header b.file d j h ∙ m.on_file j lt;
  };
  header = d;
  rest = slice (write_at b.file 0 d) (length d) (state_header_size - length d);
  encoded = e;
  at_start = header-write_at b.file d h;
  long = size-header;
  chunk_count = n;
  counted = c;
  sized = z;
}
  where
    size-header : state_header_size ≤ (write_at b.file 0 d).size
    size-header = unfold write_at in omega arith
