-- ===== src/State.antt =====
-- pkg/oget/state.go: the download state, its bitset of finished chunks and the state file.
-- The state file is a `File`; the part of it that is mapped into memory is `bits` of Bitset.
-- cbor.Marshal and cbor.Decoder are the parameter `Codec`; the answers of the operating system that
-- the code branches on are the record `Answers`.
mod Bits
pub mod Sizes
pub mod Stored
pub mod Mark
pub mod Create
pub mod Resume
pub mod Count
use Prim.Native.Nat.{bit_and, bit_or}
use oget.Prelude.{
  ℕ, zero, suc, ◌+◌, ◌/◌, ◌%◌, ◌^◌, ◌≡◌, Bool, true, false, not, ◌&&◌, ◌||◌, Option, none, some,
  List, [], ◌∷◌, ltb, leb, ◌==◌, if◌then◌else◌, length, get_or, set, replicate,
}
use oget.Prelude.Int.{ℤ, pos, negsuc, pos_part, ltb_ℤ, leb_ℤ, add64, sub64, div64}
use oget.Prelude.Text.{Bytes, str_eq, is_empty}
use oget.File
use oget.File.{File, write_at, slice, created}

abbrev pub state_header_size : ℕ
state_header_size = 16384

-- The exported fields of DownloadState, which the state file keeps. A time is a number.
pub record Info : Type 0 where
  pub url : Bytes
  pub file_size : ℤ
  pub etag : Bytes
  pub last_modified : Bytes
  pub chunk_size : ℤ
  pub updated_at : ℕ

-- mmapBitset, and the contents of its file
pub record Bitset : Type 0 where
  pub file : File
  pub bits : Bytes
  pub is_mmap : Bool

pub record DownloadState : Type 0 where
  pub info : Info
  pub bitset : Option Bitset

-- github.com/fxamacker/cbor: `marshal` may fail, and `decode` reads the first item of its input.
pub record Codec : Type 0 where
  pub marshal : Info → Option Bytes
  pub decode : Bytes → Option Info
  -- the time that is left of `updated_at` after encoding
  pub stored_time : ℕ → ℕ

pub data Fault : Type 0 where
  open_failed truncate_failed write_failed read_failed decode_failed marshal_failed : Fault
  header_too_large sync_failed munmap_failed : Fault

-- what a call returns: a value, an error, or a panic of the runtime
pub data Outcome {ℓ} (A : Type ℓ) : Type ℓ where
  ok : A → Outcome A
  err : Fault → Outcome A
  panic : Outcome A

infixl 5 ◌>>=◌
abbrev pub ◌>>=◌ {ℓ κ} : {A : Type ℓ} {B : Type κ} → Outcome A → (A → Outcome B) → Outcome B
ok a >>= f = f a
err e >>= f = err e
panic >>= f = panic

-- Whether each call of the operating system succeeds.
pub record Answers : Type 0 where
  pub opened : Bool
  pub truncated : Bool
  pub mapped : Bool
  pub read : Bool
  pub read_bits : Bool
  pub written : Bool
  pub synced : Bool
  pub unmapped : Bool

abbrev check : Bool → Fault → Outcome (Unit {0})
check true e = ok tt
check false e = err e

infixl 5 ◌>>◌
abbrev ◌>>◌ {ℓ} : {B : Type ℓ} → Outcome (Unit {0}) → Outcome B → Outcome B
m >> k = m >>= λ _. k

abbrev or_panic : Option ℤ → Outcome ℤ
or_panic none = panic
or_panic (some z) = ok z

-- (size + chunk - 1) / chunk, in int64
unfoldable pub num_chunks : ℤ → ℤ → Option ℤ
num_chunks size chunk = div64 (sub64 (add64 size chunk) (pos 1)) chunk

-- (n + 7) / 8, in int64
unfoldable pub num_bytes : ℤ → Option ℤ
num_bytes n = div64 (add64 n (pos 7)) (pos 8)

-- make([]byte, n)
abbrev make : ℤ → Outcome Bytes
make (pos n) = ok (replicate n 0)
make (negsuc n) = panic

-- The bitset over the opened file `f`: the mapped bytes, or fresh zeros that are written out.
new_bitset : Answers → File → ℤ → Outcome Bitset
new_bitset os f n =
    if os.mapped
    then ok (record { file = f; bits = slice f state_header_size (pos_part n); is_mmap = true })
    else do
      zeros ← make n
      check os.written write_failed
      ok (record { file = write_at f state_header_size zeros; bits = zeros; is_mmap = false })

-- f.Truncate(size), which refuses a negative size
abbrev resize : Answers → File → ℤ → Outcome File
resize os f (pos n) = if os.truncated then ok (File.truncate f n) else err truncate_failed
resize os f (negsuc n) = err truncate_failed

-- NewDownloadState: `old` is the file at the path, if one is there; it is opened, not cleared.
unfoldable pub new_download_state :
    Answers → ℕ → Bytes → ℤ → ℤ → Option File → Outcome DownloadState
unfolding new_bitset
new_download_state os now url size chunk old = do
  n ← or_panic (num_chunks size chunk)
  b ← or_panic (num_bytes n)
  check os.opened open_failed
  f ← resize os (elim old [ none ↦ created | some f ↦ f ]) (add64 (pos state_header_size) b)
  bs ← new_bitset os f b
  ok (record {
    info = record {
      url = url;
      file_size = size;
      etag = [];
      last_modified = [];
      chunk_size = chunk;
      updated_at = now;
    };
    bitset = some bs;
  })

-- The bitset of an existing file: the mapped bytes, or a copy of them.
load_bitset : Answers → File → ℤ → Outcome Bitset
load_bitset os f n =
    if os.mapped
    then ok (record { file = f; bits = slice f state_header_size (pos_part n); is_mmap = true })
    else do
      zeros ← make n
      check os.read_bits read_failed
      ok (record { file = f; bits = slice f state_header_size (length zeros); is_mmap = false })

abbrev decoded : Option Info → Outcome Info
decoded none = err decode_failed
decoded (some i) = ok i

-- LoadState of the file at the path.
unfoldable pub load_state : Codec → Answers → File → Outcome DownloadState
unfolding load_bitset
load_state codec os f = do
  check os.opened open_failed
  check (os.read && leb state_header_size f.size) read_failed
  info ← decoded (codec.decode (slice f 0 state_header_size))
  n ← or_panic (num_chunks info.file_size info.chunk_size)
  b ← or_panic (num_bytes n)
  bs ← load_bitset os f b
  ok (record { info = info; bitset = some bs })

-- s.bitset.data[i] = v: the mapped bytes are the file's
store : Bitset → ℕ → ℕ → Bitset
store b i v =
    if b.is_mmap
    then record b { bits = set b.bits i v; file = write_at b.file (state_header_size + i) (v ∷ []) }
    else record b { bits = set b.bits i v }

-- the write-through of an unmapped bitset, whose error is dropped
write_through : Bool → Bitset → ℕ → Bitset
write_through written b i =
    if not b.is_mmap && written
    then record b { file = write_at b.file (state_header_size + i) (get_or b.bits i 0 ∷ []) }
    else b

unfoldable pub set_bit : Bool → Bitset → ℕ → Bitset
unfolding store write_through
set_bit written b id =
    let i = id / 8 in
    write_through written (store b i (bit_or (get_or b.bits i 0) (2 ^ (id % 8)))) i

abbrev mark_bits : Bool → ℕ → ℕ → Info → Option Bitset → DownloadState
mark_bits written now id info none = record { info = info; bitset = none }
mark_bits written now id info (some b) =
    if ltb (id / 8) (length b.bits)
    then record { info = record info { updated_at = now }; bitset = some (set_bit written b id) }
    else record { info = info; bitset = some b }

-- MarkComplete: `written` is whether the write-through succeeds.
unfoldable pub mark_complete : Bool → ℕ → DownloadState → ℕ → DownloadState
unfolding set_bit
mark_complete written now s id = mark_bits written now id s.info s.bitset

unfoldable pub test_bit : Bytes → ℕ → Bool
test_bit bits id = not (bit_and (get_or bits (id / 8) 0) (2 ^ (id % 8)) == 0)

-- IsComplete
unfoldable pub is_complete : DownloadState → ℕ → Bool
unfolding test_bit
is_complete s id = elim s.bitset [
  | none ↦ false
  | some b ↦ if ltb (id / 8) (length b.bits) then test_bit b.bits id else false
]

abbrev differs : Bytes → Bytes → Bool
differs new old = not (is_empty new) && not (is_empty old) && not (str_eq new old)

-- IsServerChanged
unfoldable pub is_server_changed : DownloadState → Bytes → Bytes → Bool
is_server_changed s new_etag new_last_modified =
    if differs new_etag s.info.etag
    then true
    else if differs new_last_modified s.info.last_modified
    then true
    else false

-- the inner loop of PercentComplete, over the bits from i on
pub count_bits : ℕ → ℕ → ℕ → ℕ
count_bits b i zero = 0
count_bits b i (suc n) = (if not (bit_and b (2 ^ i) == 0) then 1 else 0) + count_bits b (suc i) n

unfoldable pub count_complete : Bytes → ℕ
unfolding count_bits
count_complete [] = 0
count_complete (b ∷ bits) = count_bits b 0 8 + count_complete bits

-- PercentComplete, as the numerator and the denominator of its fraction
unfoldable pub percent_complete : DownloadState → Option (ℕ × ℤ)
unfolding count_complete
percent_complete s = if leb_ℤ s.info.file_size (pos 0) then some (0, pos 1) else elim s.bitset [
  | none ↦ some (0, pos 1)
  | some b ↦ elim (num_chunks s.info.file_size s.info.chunk_size) [
    | none ↦ none
    | some n ↦ some (count_complete b.bits, n)
  ]
]

abbrev saved : Answers → Bytes → Info → Option Bitset → Outcome DownloadState
saved os header info none = panic
saved os header info (some b) = do
  check os.written write_failed
  check os.synced sync_failed
  ok (record { info = info; bitset = some (record b { file = write_at b.file 0 header }) })

abbrev marshalled : Option Bytes → Outcome Bytes
marshalled none = err marshal_failed
marshalled (some d) = ok d

-- Save
unfoldable pub save : Codec → Answers → DownloadState → Outcome DownloadState
save codec os s = do
  header ← marshalled (codec.marshal s.info)
  check (leb (length header) state_header_size) header_too_large
  saved os header s.info s.bitset

-- Close: the state, and the error of munmap if any
unfoldable pub close : Answers → DownloadState → DownloadState × Option Fault
close os s = elim s.bitset [
  | none ↦ (s, none)
  | some b ↦ (
    record { info = s.info; bitset = none },
    if b.is_mmap && not os.unmapped then some munmap_failed else none,
  )
]

-- the contents of the state file, while it is open
abbrev pub file_of : DownloadState → Option File
file_of s = elim s.bitset [ none ↦ none | some b ↦ some b.file ]
