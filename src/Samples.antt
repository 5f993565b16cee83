-- ===== src/Samples.antt =====
-- Concrete parameters on which the theorems are tried: a codec, a URL library, a bitset that is
-- stored in its file, and a download of three chunks.
use oget.Prelude.{
  ℕ, ◌≡◌, refl, true, Option, none, some, [], ◌∷◌, ◌++◌, arith, length, inl, ap, ◌∙◌, sym,
}
use oget.Prelude.Int.{ℤ, pos, negsuc}
use oget.Prelude.Text.{Bytes, codes}
use oget.Url.{Library}
use oget.State.{Info, Bitset, Codec, Answers, set_bit}
use oget.State.Sizes.{chunks, num_chunks_pos, num_bytes_pos}
use oget.State.Mark.{length-with_bit, bits-set_bit}
use oget.State.Stored.{IsFaithful, IsStored, IsStored-set_bit, IsStored-with_header, with_header}
use oget.State.Create.{info_of, bitset_of, IsMirrored-bitset_of, size-bitset_of, length-bitset_of}
use oget.Task.{ChunkTask, new_chunk_task, range_size}

-- metadata without any text, as the list of its numbers
abbrev pub toy_encode : Bytes → ℤ → Bytes → Bytes → ℤ → ℕ → Option Bytes
toy_encode (x ∷ url) size etag lm chunk u = none
toy_encode [] (negsuc n) etag lm chunk u = none
toy_encode [] (pos n) (x ∷ etag) lm chunk u = none
toy_encode [] (pos n) [] (x ∷ lm) chunk u = none
toy_encode [] (pos n) [] [] (negsuc c) u = none
toy_encode [] (pos n) [] [] (pos c) u = some (n ∷ c ∷ u ∷ [])

abbrev pub toy_decode : Bytes → Option Info
toy_decode (n ∷ c ∷ u ∷ rest) = some (record {
  url = [];
  file_size = pos n;
  etag = [];
  last_modified = [];
  chunk_size = pos c;
  updated_at = u;
})
toy_decode [] = none
toy_decode (x ∷ []) = none
toy_decode (x ∷ y ∷ []) = none

abbrev pub toy_codec : Codec
toy_codec = record {
  marshal = λ i. toy_encode i.url i.file_size i.etag i.last_modified i.chunk_size i.updated_at;
  decode = toy_decode;
  stored_time = λ u. u;
}

pub toy_codec-IsFaithful : IsFaithful toy_codec
toy_codec-IsFaithful = record {
  decode-marshal =
      λ i d rest e. go i.url i.file_size i.etag i.last_modified i.chunk_size i.updated_at d rest e;
}
  where
    go :
        (url : Bytes) (size : ℤ) (etag lm : Bytes) (chunk : ℤ) (u : ℕ) (d rest : Bytes)
        → toy_encode url size etag lm chunk u ≡ some d
        → toy_decode (d ++ rest)
          ≡ some (record {
            url = url;
            file_size = size;
            etag = etag;
            last_modified = lm;
            chunk_size = chunk;
            updated_at = u;
          })
    go (x ∷ url) size etag lm chunk u d rest e = cc
    go [] (negsuc n) etag lm chunk u d rest e = cc
    go [] (pos n) (x ∷ etag) lm chunk u d rest e = cc
    go [] (pos n) [] (x ∷ lm) chunk u d rest e = cc
    go [] (pos n) [] [] (negsuc c) u d rest e = cc
    go [] (pos n) [] [] (pos c) u d rest e = let same : n ∷ c ∷ u ∷ [] ≡ d = cc in rw (← same) refl

-- every URL is an ftp one, whose path is the whole text
abbrev pub toy_library : Library
toy_library = record {
  parse = λ s.
      some
        (record { scheme = codes "FTP"; host = codes "h"; path = s; query = λ k. []; user = none });
  join = λ a b. a ++ b;
  dir = λ a. [];
  base = λ a. a;
}

abbrev pub all_well : Answers
all_well = record {
  opened = true;
  truncated = true;
  mapped = true;
  read = true;
  read_bits = true;
  written = true;
  synced = true;
  unmapped = true;
}

-- three chunks
abbrev pub sample_size : ℕ
sample_size = 2500000

abbrev pub sample_info : Info
sample_info = info_of 5 [] sample_size range_size

abbrev sample_header : Bytes
sample_header = sample_size ∷ range_size ∷ 5 ∷ []

abbrev sample_begun : Bitset
sample_begun = with_header (bitset_of all_well none sample_size range_size) sample_header

sample_begun-IsStored : IsStored toy_codec sample_info sample_begun
sample_begun-IsStored =
    IsStored-with_header sample_info (bitset_of all_well none sample_size range_size) sample_header
      (chunks sample_size range_size) (IsMirrored-bitset_of all_well none sample_size range_size tt)
      (size-bitset_of all_well none sample_size range_size) refl (omega arith)
      (num_chunks_pos sample_size range_size (omega arith) (omega arith))
      (num_bytes_pos sample_size range_size (omega arith) (omega arith)
        ∙ ap (λ k. some (pos k)) (sym (length-bitset_of all_well sample_size range_size none)))

-- chunk 1 is finished
abbrev pub sample_bitset : Bitset
sample_bitset = set_bit true sample_begun 1

begun_length : length sample_begun.bits ≡ 1
begun_length = length-bitset_of all_well sample_size range_size none

pub sample_length : length sample_bitset.bits ≡ 1
sample_length =
    rw (bits-set_bit true sample_begun 1, length-with_bit sample_begun.bits 1) begun_length

pub sample_bitset-IsStored : IsStored toy_codec sample_info sample_bitset
sample_bitset-IsStored =
    IsStored-set_bit true sample_begun 1 (omega (arith, begun_length)) (inl refl)
      sample_begun-IsStored

-- a chunk of three bytes at offset 4
abbrev pub sample_task : ChunkTask
sample_task = record new_chunk_task { offset = 4; length = pos 3; on_chunk_complete = true }
