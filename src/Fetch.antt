-- ===== src/Fetch.antt =====
-- HttpFetcher.Fetch of pkg/oget/fetcher.go. The HTTP client is an argument: the response, if any,
-- to the range that is asked for. sha256 is an argument too.
pub mod Round
pub mod Result
pub mod Hang
pub mod Transport
pub mod Multi
pub mod Returns
pub mod Keeps
use oget.Prelude.{
  ℕ, zero, suc, ◌+◌, ◌-◌, ◌*◌, ◌≡◌, Bool, true, false, not, ◌&&◌, ◌||◌, Option, none, some, List,
  [], ◌∷◌, ◌++◌, ltb, leb, ◌==◌, if◌then◌else◌,
}
use oget.Prelude.Int.{ℤ, pos, negsuc, pos_part, ◌+ℤ◌, ◌-ℤ◌, eqb_ℤ, leb_ℤ, ltb_ℤ}
use oget.Prelude.Text.{Bytes}
use oget.Reader.{IoError, eof, unexpected_eof, Reader}
use oget.Storage.{Storage, Transfer, read_at_from}
use oget.Task.{ChunkTask}

-- The Range header: none, `bytes=a-b` or `bytes=a-`.
pub data Range : Type 0 where
  whole : Range
  between : ℕ → ℤ → Range
  from : ℕ → Range

pub record Response : Type 0 where
  pub status : ℕ
  pub body : Reader

pub data FetchError : Type 0 where
  request_failed cancelled : FetchError
  bad_status : ℕ → FetchError
  io : IoError → FetchError
  incomplete : ℕ → ℤ → FetchError

-- What Fetch leaves: its error, the task with its `written`, the storage, the arguments of the
-- calls of OnProgress and those of OnChunkComplete.
pub record Fetched : Type 0 where
  pub failure : Option FetchError
  pub task : ChunkTask
  pub storage : Storage
  pub progress : List ℕ
  pub completed : List (ℕ × Bytes)

abbrev pub until_eof : ℤ
until_eof = negsuc 0

abbrev pub is_until_eof : ChunkTask → Bool
is_until_eof t = eqb_ℤ t.length until_eof

unfoldable pub range_of : ChunkTask → Range
unfolding ◌+ℤ◌ ◌-ℤ◌
range_of t =
    if not (is_until_eof t)
    then between (t.offset + t.written) (pos t.offset +ℤ t.length -ℤ pos 1)
    else if ltb 0 t.written
    then from (t.offset + t.written)
    else whole

-- `task.Length - written`, or a buffer where the length is not known
unfoldable pub remaining : ChunkTask → ℕ → ℤ
unfolding ◌-ℤ◌
remaining t written = if is_until_eof t then pos (32 * 1024) else t.length -ℤ pos written

-- How the loop is left.
pub data Exit : Type 0 where
  broke : Exit
  returned : FetchError → Exit

-- The state of the loop.
pub record Run : Type 0 where
  pub storage : Storage
  pub body : Reader
  pub written : ℕ
  pub progress : List ℕ

abbrev pub report : ChunkTask → ℕ → List ℕ → List ℕ
report t n p = if ltb 0 n && t.on_progress then p ++ n ∷ [] else p

abbrev pub run_after : ChunkTask → Run → Transfer → Run
run_after t run x = record {
  storage = x.storage;
  body = x.reader;
  written = run.written + x.n;
  progress = report t x.n run.progress;
}

-- An error of ReadAtFrom other than the two ends of the body is returned.
abbrev pub leave : IoError → Exit
leave eof = broke
leave unexpected_eof = broke
leave e = returned (io e)

-- The loop, with the context found cancelled in round i where `done i`; `none` is the end of the
-- fuel.
unfoldable pub fetch_loop : (ℕ → Bool) → ChunkTask → ℕ → ℕ → Run → Option (Exit × Run)
fetch_loop done t zero i run = none
fetch_loop done t (suc k) i run =
    let left = remaining t run.written in
    let x = read_at_from run.storage run.body (t.offset + run.written) (pos_part left) in
    let run' = run_after t run x in
    let rest = fetch_loop done t k (suc i) run' in
    if done i
    then some (returned cancelled, run)
    else if leb_ℤ left (pos 0) && not (is_until_eof t)
    then some (broke, run)
    else elim x.error [ none ↦ rest | some e ↦ some (leave e, run') ]

-- Whether `task.Written = written` is run before the return: not where the context is cancelled.
abbrev saves : FetchError → Bool
saves cancelled = false
saves e = true

abbrev pub hash_of : (Bytes → Bytes) → Bool → ChunkTask → Reader → Bytes
hash_of sha256 checksum t body = if checksum && t.written == 0 then sha256 body.seen else []

-- The part behind the loop.
unfoldable pub conclude : (Bytes → Bytes) → Bool → ChunkTask → Exit × Run → Fetched
conclude sha256 checksum t (returned e, run) = record {
  failure = some e;
  task = if saves e then record t { written = run.written } else t;
  storage = run.storage;
  progress = run.progress;
  completed = [];
}
conclude sha256 checksum t (broke, run) =
    if not (is_until_eof t) && ltb_ℤ (pos run.written) t.length
    then record {
      failure = some (incomplete run.written t.length);
      task = record t { written = run.written };
      storage = run.storage;
      progress = run.progress;
      completed = [];
    }
    else record {
      failure = none;
      task = t;
      storage = run.storage;
      progress = run.progress;
      completed =
          if t.on_chunk_complete then (t.chunk_id, hash_of sha256 checksum t run.body) ∷ [] else [];
    }

abbrev pub refused : ChunkTask → Storage → FetchError → Fetched
refused t s e = record { failure = some e; task = t; storage = s; progress = []; completed = [] }

abbrev pub begin : Storage → ChunkTask → Response → Run
begin s t resp = record { storage = s; body = resp.body; written = t.written; progress = [] }

-- HttpFetcher.Fetch, with fuel for the rounds of its loop
unfoldable pub fetch :
    (Bytes → Bytes)
    → Bool
    → (Range → Option Response)
    → (ℕ → Bool)
    → ℕ
    → Storage
    → ChunkTask
    → Option Fetched
fetch sha256 checksum client done fuel s t = elim (client (range_of t)) [
  | none ↦ some (refused t s request_failed)
  | some resp ↦
      if not (resp.status == 206) && not (resp.status == 200)
      then some (refused t s (bad_status resp.status))
      else elim (fetch_loop done t fuel 0 (begin s t resp)) [
        | none ↦ none
        | some end ↦ some (conclude sha256 checksum t end)
      ]
]
