-- ===== src/Storage.antt =====
-- The storage backends: FileStorageHandler of pkg/oget/fetcher.go and MmapStorageHandler of
-- pkg/oget/mmap_storage.go.
pub mod Mapped
pub mod Mapping
pub mod Reads
pub mod Loops
pub mod Kind
use oget.Prelude.{
  ℕ, zero, suc, ◌+◌, ◌-◌, ◌*◌, ◌≤◌, ◌≡◌, min, Bool, true, false, ◌&&◌, Option, none, some, List, [],
  ◌∷◌, ◌++◌, ltb, leb, ◌==◌, if◌then◌else◌, length, take,
}
use oget.Prelude.Int.{ℤ, pos, negsuc}
use oget.Prelude.Text.{Bytes, is_empty}
use oget.File.{File, write_at, slice}
use oget.Reader.{IoError, eof, unexpected_eof, disk_full, out_of_fuel, Reader, Read, read, measure}

-- `file f room`: a plain file, on a disk that takes no byte at or past the offset `room`.
-- `mapped f n`: the first n bytes of a file, mapped into memory and shared with it.
pub data Storage : Type 0 where
  file : File → ℕ → Storage
  mapped : File → ℕ → Storage

abbrev pub contents : Storage → File
contents (file f room) = f
contents (mapped f n) = f

-- What ReadAtFrom returns and leaves.
pub record Transfer : Type 0 where
  pub n : ℕ
  pub error : Option IoError
  pub storage : Storage
  pub reader : Reader

abbrev pub buffer_size : ℕ
buffer_size = 32 * 1024

-- os.File.WriteAt: how many bytes fit
abbrev pub fitting : ℕ → ℕ → Bytes → ℕ
fitting room off p = min (length p) (room - off)

-- io.EOF ends ReadAtFrom without an error.
abbrev pub hide_eof : IoError → Option IoError
hide_eof eof = none
hide_eof e = some e

-- FileStorageHandler.ReadAtFrom, from the state `f`, `r`, `total` of its loop.
unfoldable pub read_loop : ℕ → ℕ → ℕ → ℕ → File → Reader → ℕ → Transfer
read_loop zero room off count f r total = record {
  n = total;
  error = some out_of_fuel;
  storage = file f room;
  reader = r;
}
read_loop (suc k) room off count f r total =
    let got = read (min buffer_size (count - total)) r in
    let nw = fitting room (off + total) got.got in
    let f' = if is_empty got.got then f else write_at f (off + total) (take nw got.got) in
    let rest = read_loop k room off count f' got.reader (total + nw) in
    let stop : Option IoError → Transfer =
      λ e. record { n = total + nw; error = e; storage = file f' room; reader = got.reader } in
    if leb count total
    then record { n = total; error = none; storage = file f room; reader = r }
    else if ltb nw (length got.got)
    then stop (some disk_full)
    else elim got.error [ some e ↦ stop (hide_eof e) | none ↦ rest ]

-- the error of io.ReadFull where `total` bytes, fewer than were asked for, came
abbrev pub short : IoError → ℕ → IoError
short eof zero = eof
short eof (suc m) = unexpected_eof
short e m = e

-- io.ReadFull into a buffer of `count` bytes, from the state `total` of its loop; the buffer is the
-- mapped part of the file.
unfoldable pub fill_loop : ℕ → ℕ → ℕ → ℕ → File → Reader → ℕ → Transfer
fill_loop zero len off count f r total = record {
  n = total;
  error = some out_of_fuel;
  storage = mapped f len;
  reader = r;
}
fill_loop (suc k) len off count f r total =
    let got = read (count - total) r in
    let nr = length got.got in
    let f' = if is_empty got.got then f else write_at f (off + total) got.got in
    let rest = fill_loop k len off count f' got.reader (total + nr) in
    let stop : Option IoError → Transfer =
      λ e. record { n = total + nr; error = e; storage = mapped f' len; reader = got.reader } in
    if leb count total
    then record { n = total; error = none; storage = mapped f len; reader = r }
    else elim got.error [
      | none ↦ rest
      | some e ↦ if leb count (total + nr) then stop none else stop (some (short e (total + nr)))
    ]

-- ReadAtFrom of both handlers, for a count that is not negative.
unfoldable pub read_at_from : Storage → Reader → ℕ → ℕ → Transfer
read_at_from (file f room) r off count =
    read_loop (suc (suc (measure r.pieces))) room off count f r 0
read_at_from (mapped f len) r off count =
    if leb len off
    then record { n = 0; error = some eof; storage = mapped f len; reader = r }
    else fill_loop (suc (suc (measure r.pieces))) len off (min count (len - off)) f r 0
