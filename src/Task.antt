-- ===== src/Task.antt =====
-- ChunkTask of pkg/oget/fetcher.go and its constants.
use oget.Prelude.{ℕ, ◌*◌, Bool, false}
use oget.Prelude.Int.{ℤ, pos}
use oget.Prelude.Text.{Bytes}
use oget.Prelude.{[], Option, none}

-- 1 MB
abbrev pub range_size : ℕ
range_size = 1024 * 1024

abbrev pub max_fetch_retries : ℕ
max_fetch_retries = 3

-- The kinds of StorageHandler that createStorageHandler returns.
pub data StorageKind : Type 0 where
  file mmap : StorageKind

-- `on_progress` and `on_chunk_complete` are whether the callback is set; `storage` is the handler
-- that the task shares with the other tasks of its file.
pub record ChunkTask : Type 0 where
  pub file_id : Bytes
  pub chunk_id : ℕ
  pub offset : ℕ
  pub length : ℤ
  pub url : Bytes
  pub storage : Option StorageKind
  pub on_progress : Bool
  pub on_chunk_complete : Bool
  pub retries : ℕ
  pub written : ℕ

-- NewChunkTask: ReleaseChunkTask puts only reset tasks into the pool
abbrev pub new_chunk_task : ChunkTask
new_chunk_task = record {
  file_id = [];
  chunk_id = 0;
  offset = 0;
  length = pos 0;
  url = [];
  storage = none;
  on_progress = false;
  on_chunk_complete = false;
  retries = 0;
  written = 0;
}
