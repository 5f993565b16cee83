-- ===== src/Assembly.antt =====
-- How a file comes together: the workers of pkg/oget/downloader.go give the chunks of one file, as
-- PrepareTasks makes them, to HttpFetcher.Fetch, in any order and as often as it takes. The chunks
-- share the storage of the file. Here the calls are run one after the other;
-- Assembly/Rounds interleaves their rounds.
pub mod Whole
pub mod Total
pub mod Rounds
use oget.Prelude.{
  ℕ, suc, ◌≡◌, Bool, true, false, ◌||◌, Option, none, some, List, [], ◌∷◌, ◌==◌, if◌then◌else◌,
}
use oget.Prelude.Text.{Bytes}
use oget.Storage.{Storage}
use oget.Task.{ChunkTask, StorageKind}
use oget.Requester.{Requester, chunk_task}
use oget.Fetch.{Range, Response, Fetched, FetchError, fetch}

-- The storage of the file, the task of each chunk as it stands, and whether it was fetched.
pub record Assembly : Type 0 where
  pub storage : Storage
  pub tasks : ℕ → ChunkTask
  pub finished : ℕ → Bool

-- One call of Fetch: the chunk, what the server answers, when the context is found cancelled, and
-- the fuel of the call.
pub record Attempt : Type 0 where
  pub chunk : ℕ
  pub client : Range → Option Response
  pub cancelled : ℕ → Bool
  pub fuel : ℕ

-- The task that goes on: the same one, or the copy for its retry.
abbrev pub next_try : Fetched → ChunkTask
next_try o = elim o.failure [
  | none ↦ o.task
  | some e ↦ record o.task { retries = suc o.task.retries }
]

abbrev pub succeeded : Option FetchError → Bool
succeeded none = true
succeeded (some e) = false

-- what a call of Fetch for chunk i leaves
abbrev pub settle : Assembly → ℕ → Fetched → Assembly
settle a i o = record {
  storage = o.storage;
  tasks = λ j. if j == i then next_try o else a.tasks j;
  finished = λ j. if j == i then a.finished j || succeeded o.failure else a.finished j;
}

-- One call of Fetch by a worker; `none` where it does not return.
unfoldable pub attempt : (Bytes → Bytes) → Bool → Assembly → Attempt → Option Assembly
attempt sha256 checksum a x =
    elim (fetch sha256 checksum x.client x.cancelled x.fuel a.storage (a.tasks x.chunk)) [
      | none ↦ none
      | some o ↦ some (settle a x.chunk o)
    ]

unfoldable pub attempts : (Bytes → Bytes) → Bool → Assembly → List Attempt → Option Assembly
unfolding attempt
attempts sha256 checksum a [] = some a
attempts sha256 checksum a (x ∷ xs) = elim (attempt sha256 checksum a x) [
  | none ↦ none
  | some b ↦ attempts sha256 checksum b xs
]

-- The tasks of a file of n bytes as PrepareTasks makes them; the chunks that its state shows as
-- complete have no task, and count as fetched.
unfoldable pub begin_assembly :
    Requester → Bytes → ℕ → Option StorageKind → (ℕ → Bool) → Storage → Assembly
begin_assembly r name n kind complete s = record {
  storage = s;
  tasks = chunk_task r name n kind;
  finished = complete;
}
