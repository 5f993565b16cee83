-- ===== src/State/Mark.antt =====
-- MarkComplete and IsComplete: a finished chunk is recorded, in memory and in the state file.
use Prim.Native.Nat.{bit_or}
use oget.Prelude.{
  ℕ, ◌+◌, ◌/◌, ◌%◌, ◌^◌, ◌<◌, ◌≤◌, ◌≡◌, refl, ◌⊎◌, inl, inr, Bool, true, Option, none, some, arith,
  ◌==◌, if◌then◌else◌, length, get_or, set, length-set, get_or-set_self, ◌∷◌, [], get_or-set,
  Bool-cases, lt→ltb,
}
use native.Mathlib.Nat.{sub_self}
use oget.Prelude.Text.{Bytes}
use oget.File.{File, write_at}
use oget.State.{
  Info, Bitset, DownloadState, state_header_size, set_bit, mark_complete, test_bit, is_complete,
}
use oget.State.Bits.{bit_or_lt, bit_and-bit_or}

-- every element is a byte
abbrev pub AreBytes : Bytes → Type 0
AreBytes bits = (i : ℕ) → get_or bits i 0 < 256

-- Setting the bit of a chunk in the bytes of the bitset.
abbrev pub with_bit : Bytes → ℕ → Bytes
with_bit bits id = set bits (id / 8) (bit_or (get_or bits (id / 8) 0) (2 ^ (id % 8)))

pub AreBytes-with_bit :
    (bits : Bytes) (id : ℕ) → AreBytes bits → id / 8 < length bits → AreBytes (with_bit bits id)
AreBytes-with_bit bits id h lt i =
    let b = get_or bits (id / 8) 0 in
    let v = bit_or b (2 ^ (id % 8)) in
    ground (
      arith,
      get_or-set bits (id / 8) i v 0 lt,
      bit_or_lt b (id % 8) (h (id / 8)) (omega arith),
      h i,
    )

pub test_bit-with_bit :
    (bits : Bytes) (id j : ℕ)
    → AreBytes bits
    → id / 8 < length bits
    → test_bit (with_bit bits id) j ≡ (if id == j then true else test_bit bits j)
unfolding test_bit
test_bit-with_bit bits id j h lt =
    let b = get_or bits (id / 8) 0 in
    let v = bit_or b (2 ^ (id % 8)) in
    elim (Bool-cases (id / 8 == j / 8)) [
      | inl e ↦
          rw (get_or-set bits (id / 8) (j / 8) v 0 lt, e)
            (ground
              (arith, bit_and-bit_or b (id % 8) (j % 8) (h (id / 8)) (omega arith) (omega arith)))
      | inr n ↦ rw (get_or-set bits (id / 8) (j / 8) v 0 lt, n) (ground arith)
    ]

-- A bitset of bytes that its file holds too, behind the header.
pub record IsMirrored (b : Bitset) : Type 0 where
  pub are_bytes : AreBytes b.bits
  pub on_file :
      (i : ℕ) → i < length b.bits → b.file.byte (state_header_size + i) ≡ get_or b.bits i 0

pub bits-set_bit : (w : Bool) (b : Bitset) (id : ℕ) → (set_bit w b id).bits ≡ with_bit b.bits id
unfolding set_bit
bits-set_bit w b id = ground arith

pub is_mmap-set_bit : (w : Bool) (b : Bitset) (id : ℕ) → (set_bit w b id).is_mmap ≡ b.is_mmap
unfolding set_bit
is_mmap-set_bit w b id = ground arith

pub length-with_bit : (bits : Bytes) (id : ℕ) → length (with_bit bits id) ≡ length bits
length-with_bit bits id = length-set bits (id / 8) (bit_or (get_or bits (id / 8) 0) (2 ^ (id % 8)))

-- The file after a bit is set, where the write-through is not lost.
file-set_bit :
    (w : Bool) (b : Bitset) (id : ℕ)
    → id / 8 < length b.bits
    → (b.is_mmap ≡ true) ⊎ (w ≡ true)
    → (set_bit w b id).file
      ≡ write_at b.file (state_header_size + id / 8) (get_or (with_bit b.bits id) (id / 8) 0 ∷ [])
unfolding set_bit
file-set_bit w b id lt h =
    ground (
      arith,
      get_or-set_self b.bits (id / 8) (bit_or (get_or b.bits (id / 8) 0) (2 ^ (id % 8))) 0 lt,
    )

byte-written :
    (f : File) (i j v : ℕ)
    → (write_at f (state_header_size + i) (v ∷ [])).byte (state_header_size + j)
      ≡ (if i == j then v else f.byte (state_header_size + j))
unfolding write_at
byte-written f i j v = ground (arith, sub_self (state_header_size + i))

-- Setting the bit of a chunk that the bitset has room for keeps file and memory alike, where the
-- bitset is mapped or the write to the file succeeds.
pub set_bit-IsMirrored :
    (w : Bool) (b : Bitset) (id : ℕ)
    → id / 8 < length b.bits
    → (b.is_mmap ≡ true) ⊎ (w ≡ true)
    → IsMirrored b
    → IsMirrored (set_bit w b id)
set_bit-IsMirrored w b id lt h m =
    let v = bit_or (get_or b.bits (id / 8) 0) (2 ^ (id % 8)) in
    record {
      are_bytes = rw (bits-set_bit w b id) (AreBytes-with_bit b.bits id m.are_bytes lt);
      on_file =
          rw (bits-set_bit w b id, file-set_bit w b id lt h)
            (λ i k. ground (
              arith,
              byte-written b.file (id / 8) i v,
              get_or-set b.bits (id / 8) (id / 8) v 0 lt,
              get_or-set b.bits (id / 8) i v 0 lt,
              m.on_file i (omega (arith, length-set b.bits (id / 8) v)),
            ));
    }

abbrev pub opened : Info → Bitset → DownloadState
opened i b = record { info = i; bitset = some b }

pub mark_complete-opened :
    (w : Bool) (now : ℕ) (i : Info) (b : Bitset) (id : ℕ)
    → id / 8 < length b.bits
    → mark_complete w now (opened i b) id ≡ opened (record i { updated_at = now }) (set_bit w b id)
unfolding mark_complete
mark_complete-opened w now i b id lt = rw (lt→ltb _ _ lt)

-- For an open state whose bits are bytes, and a chunk that the bitset has room for, MarkComplete makes
-- IsComplete true of that chunk and changes its answer for no other chunk.
pub is_complete-mark_complete :
    (w : Bool) (now : ℕ) (i : Info) (b : Bitset) (id j : ℕ)
    → AreBytes b.bits
    → id / 8 < length b.bits
    → is_complete (mark_complete w now (opened i b) id) j
      ≡ (if id == j then true else is_complete (opened i b) j)
unfolding is_complete
is_complete-mark_complete w now i b id j h lt = rw (mark_complete-opened w now i b id lt) (
    rw (bits-set_bit w b id) (
      ground (
        arith,
        test_bit-with_bit b.bits id j h lt,
        length-set b.bits (id / 8) (bit_or (get_or b.bits (id / 8) 0) (2 ^ (id % 8))),
      )))

-- For a chunk that the bitset has no room for, and for a closed state, MarkComplete changes nothing.
pub mark_complete_ignored :
    (w : Bool) (now : ℕ) (s : DownloadState) (id : ℕ)
    → ((b : Bitset) → s.bitset ≡ some b → length b.bits ≤ id / 8)
    → mark_complete w now s id ≡ s
unfolding mark_complete
mark_complete_ignored w now s id h = go s.bitset refl
  where
    go : (o : Option Bitset) → s.bitset ≡ o → mark_complete w now s id ≡ s
    go none e = ground arith
    go (some b) e = ground (arith, h b e)
