-- ===== src/Reader.antt =====
-- io.Reader: a source that hands out its bytes in pieces and then reports an error for ever.
use oget.Prelude.{
  ℕ, suc, ◌+◌, Bool, Option, none, some, List, [], ◌∷◌, ◌++◌, leb, if◌then◌else◌, length, take,
  drop, concat,
}
use oget.Prelude.Text.{Bytes}

-- `disk_full` is an error of a write. `out_of_fuel` belongs to the model only.
pub data IoError : Type 0 where
  eof unexpected_eof broken disk_full out_of_fuel : IoError

-- `last` is what is reported behind the last piece, at once with it if `early` is set. `seen` are
-- the bytes that were read so far, which io.TeeReader gives to the hash.
pub record Reader : Type 0 where
  pub pieces : List Bytes
  pub last : IoError
  pub early : Bool
  pub seen : Bytes

abbrev pub stream : Reader → Bytes
stream r = concat r.pieces

pub record Read : Type 0 where
  pub got : Bytes
  pub error : Option IoError
  pub reader : Reader

abbrev pub after : List Bytes → Bytes → Reader → Reader
after ps p r = record r { pieces = ps; seen = r.seen ++ p }

abbrev pub at_end : List Bytes → Reader → Option IoError
at_end [] r = if r.early then some r.last else none
at_end (p ∷ ps) r = none

abbrev pub read_pieces : ℕ → List Bytes → Reader → Read
read_pieces k [] r = record { got = []; error = some r.last; reader = r }
read_pieces k (p ∷ ps) r =
    if leb (length p) k
    then record { got = p; error = at_end ps r; reader = after ps p r }
    else record { got = take k p; error = none; reader = after (drop k p ∷ ps) (take k p) r }

-- r.Read of a buffer of k bytes
unfoldable pub read : ℕ → Reader → Read
read k r = read_pieces k r.pieces r

-- how many reads of at least one byte there can be before the error
abbrev pub measure : List Bytes → ℕ
measure [] = 0
measure (p ∷ ps) = suc (length p + measure ps)
