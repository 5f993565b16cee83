-- ===== src/State/Create.antt =====
-- What NewDownloadState makes of the file at the path, and what LoadState reads back.
use oget.Prelude.{
  ℕ, ◌+◌, ◌/◌, ◌^◌, ◌<◌, ◌≤◌, ◌≡◌, ◌⊎◌, inl, inr, Bool, true, false, Option, none, some, arith, ltb,
  if◌then◌else◌, length, get_or, le→leb, ◌∙◌, list_ext, replicate, length-replicate,
  get_or-replicate, sym, Bool-cases, ltb→lt, get_or_past, ◌%◌, Option-cases, [],
}
use oget.Prelude.Int.{pos, add64_pos}
use oget.Prelude.Text.{Bytes}
use oget.File
use oget.File.{
  File, created, write_at, slice, get_or-slice, length-slice, slice_congr, byte-write_at_inside,
}
use oget.State.{
  Info, Bitset, Codec, Answers, ok, state_header_size, test_bit, is_complete, new_download_state,
  load_state,
}
use oget.State.Bits.{bit_and_zero}
use oget.State.Sizes.{bytes, num_chunks_pos, num_bytes_pos, bytes-lt}
use oget.State.Mark.{IsMirrored, opened}
use oget.State.Stored.{IsFaithful, IsStored}

-- Opening, truncating, and mapping or writing the state file succeed.
abbrev pub CanCreate : Answers → Type 0
CanCreate os =
    (os.opened ≡ true) × (os.truncated ≡ true) × ((os.mapped ≡ true) ⊎ (os.written ≡ true))

abbrev pub CanLoad : Answers → Type 0
CanLoad os = (os.opened ≡ true) × (os.read ≡ true) × ((os.mapped ≡ true) ⊎ (os.read_bits ≡ true))

abbrev base : Option File → File
base none = created
base (some f) = f

abbrev pub info_of : ℕ → Bytes → ℕ → ℕ → Info
info_of now url n c = record {
  url = url;
  file_size = pos n;
  etag = [];
  last_modified = [];
  chunk_size = pos c;
  updated_at = now;
}

-- The state file after NewDownloadState resized it, and its bitset.
abbrev resized : Option File → ℕ → ℕ → File
resized old n c = File.truncate (base old) (state_header_size + bytes n c)

abbrev pub bitset_of : Answers → Option File → ℕ → ℕ → Bitset
bitset_of os old n c =
    if os.mapped
    then record {
      file = resized old n c;
      bits = slice (resized old n c) state_header_size (bytes n c);
      is_mmap = true;
    }
    else record {
      file = write_at (resized old n c) state_header_size (replicate (bytes n c) 0);
      bits = replicate (bytes n c) 0;
      is_mmap = false;
    }

module _ (os : Answers) (now : ℕ) (url : Bytes) (n c : ℕ) where
  pub new_download_state_ok :
      (old : Option File)
      → CanCreate os
      → 0 < c
      → n + c + 8 < 2 ^ 63
      → new_download_state os now url (pos n) (pos c) old
        ≡ ok (opened (info_of now url n c) (bitset_of os old n c))
  unfolding new_download_state
  new_download_state_ok old (o, t, h) hc hn =
      rw
        (
          num_chunks_pos n c hc hn,
          num_bytes_pos n c hc hn,
          add64_pos state_header_size (bytes n c) (bytes-lt n c hc hn),
          o,
          t,
        )
        (elim (Option-cases old) [ inl e ↦ rw e (ground arith) | inr (f, e) ↦ rw e (ground arith) ])

-- the fields of `bitset_of` whatever the mapping
module _ (os : Answers) (n c : ℕ) where
  pub length-bitset_of : (old : Option File) → length (bitset_of os old n c).bits ≡ bytes n c
  length-bitset_of old = ground (
    arith,
    length-slice (resized old n c) state_header_size (bytes n c),
    length-replicate {A = ℕ} (bytes n c) 0,
  )

-- The bytes of a file that stood at the path are bytes.
abbrev pub HoldsBytes : Option File → Type 0
HoldsBytes none = Unit
HoldsBytes (some f) = (i : ℕ) → f.byte i < 256

byte-resized-lt : (old : Option File) (n c i : ℕ) → HoldsBytes old → (resized old n c).byte i < 256
unfolding File.truncate
byte-resized-lt none n c i h = ground arith
byte-resized-lt (some f) n c i h = ground (arith, h i)

get_or-slice-lt :
    (f : File) (off k i : ℕ) → ((j : ℕ) → f.byte j < 256) → get_or (slice f off k) i 0 < 256
get_or-slice-lt f off k i h = elim (Bool-cases (ltb i k)) [
  | inl e ↦ rw (get_or-slice f off k i (ltb→lt i k e)) (h (off + i))
  | inr e ↦
      rw (get_or_past (slice f off k) i 0 (ground (arith, length-slice f off k))) (omega arith)
]

-- The bitset that NewDownloadState makes agrees with its file.
pub IsMirrored-bitset_of :
    (os : Answers) (old : Option File) (n c : ℕ)
    → HoldsBytes old
    → IsMirrored (bitset_of os old n c)
IsMirrored-bitset_of os old n c h = elim (Bool-cases os.mapped) [
  | inl e ↦ rw e (record {
    are_bytes = λ i.
        get_or-slice-lt (resized old n c) state_header_size (bytes n c) i
          (λ j. byte-resized-lt old n c j h);
    on_file = λ i lt. sym (
        get_or-slice (resized old n c) state_header_size (bytes n c) i
          (omega (arith, length-slice (resized old n c) state_header_size (bytes n c))));
  })
  | inr e ↦ rw e (record {
    are_bytes = λ i. rw (get_or-replicate {A = ℕ} (bytes n c) i 0) (omega arith);
    on_file = λ i lt.
        byte-write_at_inside (resized old n c) state_header_size (replicate (bytes n c) 0) i lt;
  })
]

pub size-bitset_of :
    (os : Answers) (old : Option File) (n c : ℕ)
    → state_header_size ≤ (bitset_of os old n c).file.size
unfolding File.truncate write_at
size-bitset_of os old n c = ground arith

zero_bits : (os : Answers) (n c i : ℕ) → get_or (bitset_of os none n c).bits i 0 ≡ 0
zero_bits os n c i = elim (Bool-cases os.mapped) [
  | inl e ↦ rw e (slice_zero (bytes n c) state_header_size i)
  | inr e ↦ rw e (get_or-replicate (bytes n c) i 0)
]
  where
    slice_zero : (k off i : ℕ) → get_or (slice (resized none n c) off k) i 0 ≡ 0
    slice_zero k off i = elim (Bool-cases (ltb i k)) [
      | inl e ↦
          get_or-slice (resized none n c) off k i (ltb→lt i k e)
          ∙ (unfold File.truncate in ground arith)
      | inr e ↦
          get_or_past (slice (resized none n c) off k) i 0
            (ground (arith, length-slice (resized none n c) off k))
    ]

-- With no file at the path, the new state has no finished chunk.
pub is_complete-bitset_of :
    (os : Answers) (i : Info) (n c j : ℕ) → is_complete (opened i (bitset_of os none n c)) j ≡ false
unfolding is_complete test_bit
is_complete-bitset_of os i n c j =
    rw (zero_bits os n c (j / 8), bit_and_zero (j % 8)) (ground arith)

-- A mapped bitset over a file that was there has the bits that the file had.
pub bits-bitset_of :
    (os : Answers) (f : File) (n c : ℕ)
    → os.mapped ≡ true
    → state_header_size + bytes n c ≤ f.size
    → (bitset_of os (some f) n c).bits ≡ slice f state_header_size (bytes n c)
unfolding File.truncate
bits-bitset_of os f n c e h =
    rw e (slice_congr _ f state_header_size (bytes n c) (λ i l u. ground arith))

-- The bits that a file mirrors are its slice.
pub slice-IsMirrored :
    (b : Bitset) → IsMirrored b → slice b.file state_header_size (length b.bits) ≡ b.bits
slice-IsMirrored b m =
    let k = length-slice b.file state_header_size (length b.bits) in
    list_ext _ b.bits 0 k (λ i lt.
      get_or-slice b.file state_header_size (length b.bits) i (omega (arith, k))
      ∙ m.on_file i (omega (arith, k)))

-- LoadState of a file that holds a state reads back its metadata, but for the precision of the time,
-- and every bit, where the codec is faithful and the calls of the operating system succeed.
pub load_state-IsStored :
    (codec : Codec) (os : Answers) (kept : Info) (b : Bitset)
    → IsFaithful codec
    → CanLoad os
    → IsStored codec kept b
    → load_state codec os b.file
      ≡ ok (
          opened
            (record kept { updated_at = codec.stored_time kept.updated_at })
            (record b { is_mmap = os.mapped }))
unfolding load_state
load_state-IsStored codec os kept b f (o, r, h) s =
    rw
      (
        o,
        r,
        le→leb _ _ s.long,
        s.at_start,
        f.decode-marshal kept s.header s.rest s.encoded,
        s.counted,
        s.sized,
        length-replicate {A = ℕ} (length b.bits) 0,
        slice-IsMirrored b s.mirrored,
      )
      (ground arith)

pub is_mmap-bitset_of :
    (os : Answers) (n c : ℕ) {w : Bool}
    → (os.mapped ≡ true) ⊎ (w ≡ true)
    → ((bitset_of os none n c).is_mmap ≡ true) ⊎ (w ≡ true)
is_mmap-bitset_of os n c m = ground arith
