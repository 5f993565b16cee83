-- ===== src/Requester.antt =====
-- pkg/oget/requester.go: PrepareTasks, which probes a resource, finds or makes its state, and
-- splits the file into tasks.
pub mod Split
pub mod Prepare
pub mod Cleanup
pub mod Probe
use oget.Prelude.{
  ℕ, zero, suc, ◌+◌, ◌-◌, ◌*◌, ◌/◌, ◌%◌, ◌≡◌, Bool, true, false, not, ◌&&◌, ◌||◌, Option, none,
  some, List, [], ◌∷◌, ◌++◌, ltb, leb, ◌==◌, if◌then◌else◌, length,
}
use oget.Prelude.Int.{ℤ, pos, negsuc, pos_part, eqb_ℤ, leb_ℤ}
use oget.Prelude.Text.{Bytes, codes, str_eq, to_lower, has_prefix}
use oget.File.{File}
use oget.State.{
  DownloadState, Codec, Answers, Outcome, ok, err, panic, Fault, is_complete, is_server_changed,
  new_download_state, load_state, save, close, ◌>>=◌, file_of,
}
use oget.Task.{ChunkTask, StorageKind, file, mmap, new_chunk_task, range_size}
use oget.Url.{Library}
use oget.Resource.{is_torrent_resource, is_video_stream_resource}
use oget.FileName.{target_name}

-- ResourceMetadata
pub record ResourceMetadata : Type 0 where
  pub size : ℤ
  pub etag : Bytes
  pub last_modified : Bytes

-- The fields of Requester and of its Config that PrepareTasks reads. `submits` and `reports` are
-- whether SubmitTask and OnProgress are set.
pub record Requester : Type 0 where
  pub resource : Bytes
  pub output_dir : Bytes
  pub storage_type : Bytes
  pub task_batch_size : ℤ
  pub submits : Bool
  pub reports : Bool

-- What PrepareTasks meets: the answer of the prober, the state file if there is one, whether the
-- target is there, the answers of the operating system, and when the context is found cancelled.
pub record World : Type 0 where
  pub probed : Option ResourceMetadata
  pub state_file : Option File
  pub target_exists : Bool
  pub loading : Answers
  pub creating : Answers
  pub target_opened : Bool
  pub target_mapped : Bool
  pub done : ℕ → Bool
  pub now : ℕ

pub data PrepareError : Type 0 where
  probe_failed state_failed target_failed cancelled : PrepareError

-- The batches that were given to SubmitTask, the error that is returned, the state after the
-- deferred Close and the state file that it leaves.
pub record Prepared : Type 0 where
  pub batches : List (List ChunkTask)
  pub failure : Option PrepareError
  pub state : Option DownloadState
  pub state_file : Option File

-- createStorageHandler, with the fallback of its caller where mapping the file fails
unfoldable pub create_storage_handler : Bytes → ℤ → Bool → StorageKind
unfolding str_eq
create_storage_handler kind size mapped =
    if str_eq kind (codes "uring")
    then file
    else if str_eq kind (codes "mmap")
    then (if leb_ℤ size (pos 0) then file else if mapped then mmap else file)
    else file

-- chunkCount of a positive length
unfoldable pub chunk_count : ℕ → ℕ
chunk_count n = n / range_size + (if not (n % range_size == 0) then 1 else 0)

abbrev pub chunk_offset : ℕ → ℕ
chunk_offset i = i * range_size

unfoldable pub chunk_length : ℕ → ℕ → ℕ
unfolding chunk_count
chunk_length n i = if i == (chunk_count n - 1) then n - chunk_offset i else range_size

-- batchSize
abbrev pub batch_size : ℤ → ℕ
batch_size z = if leb_ℤ z (pos 0) then 100 else elim z [ pos k ↦ k | negsuc k ↦ 100 ]

-- The loop over the chunks from i on: the batches that are submitted, and whether the context was
-- found cancelled, in which case the current batch is lost.
module _ (done complete : ℕ → Bool) (task : ℕ → ChunkTask) (size : ℕ) where
  pub split : ℕ → ℕ → List ChunkTask → List (List ChunkTask) × Bool
  split zero i [] = ([], false)
  split zero i (t ∷ ts) = ((t ∷ ts) ∷ [], false)
  split (suc k) i batch =
      let batch' = batch ++ task i ∷ [] in
      let skip = split k (suc i) batch in
      let full = split k (suc i) [] in
      let more = split k (suc i) batch' in
      if complete i
      then skip
      else if done i
      then ([], true)
      else if leb size (length batch')
      then (batch' ∷ full.0, full.1)
      else more

-- The state that is resumed, if the file holds one for the same content.
unfoldable pub find_state : Codec → World → ℤ → Bytes → Bytes → Outcome (Option DownloadState)
find_state codec w size etag last_modified = elim w.state_file [
  | none ↦ ok none
  | some f ↦ elim (load_state codec w.loading f) [
    | ok s ↦ ok (
        if eqb_ℤ s.info.file_size size && not (is_server_changed s etag last_modified)
        then (if w.target_exists then some s else none)
        else none)
    | err e ↦ ok none
    | panic ↦ panic
  ]
]

-- A failed Save is logged, and the state is used all the same.
abbrev saved_or : DownloadState → Outcome DownloadState → Outcome DownloadState
saved_or s (ok s') = ok s'
saved_or s (err e) = ok s
saved_or s panic = panic

-- The state of a download that begins anew.
unfoldable pub begin_state : Codec → World → Bytes → ℤ → Bytes → Bytes → Outcome DownloadState
begin_state codec w url size etag last_modified = do
  s ← new_download_state w.creating w.now url size (pos range_size) w.state_file
  let s' = record s { info = record s.info { etag = etag; last_modified = last_modified } }
  saved_or s' (save codec w.creating s')

unfoldable pub choose_state : Codec → World → Bytes → ℤ → Bytes → Bytes → Outcome DownloadState
choose_state codec w url size etag last_modified = do
  found ← find_state codec w size etag last_modified
  elim found [ some s ↦ ok s | none ↦ begin_state codec w url size etag last_modified ]

-- The task of a resource that is fetched in one piece.
unfoldable pub whole_task : Requester → Bytes → ℤ → Option StorageKind → ChunkTask
whole_task r name size storage = record new_chunk_task {
  file_id = name;
  length = size;
  url = r.resource;
  storage = storage;
  on_progress = r.reports;
  on_chunk_complete = true;
}

unfoldable pub chunk_task : Requester → Bytes → ℕ → Option StorageKind → ℕ → ChunkTask
chunk_task r name n storage i = record new_chunk_task {
  file_id = name;
  chunk_id = i;
  offset = chunk_offset i;
  length = pos (chunk_length n i);
  url = r.resource;
  storage = storage;
  on_progress = r.reports;
  on_chunk_complete = true;
}

-- The tasks of a file of n > 0 bytes: the chunks that the state does not show as complete.
unfoldable pub plan_chunks :
    Requester
    → World
    → Bytes
    → ℕ
    → Option StorageKind
    → DownloadState
    → List (List ChunkTask) × Bool
plan_chunks r w name n storage state =
    split w.done (is_complete state) (chunk_task r name n storage) (batch_size r.task_batch_size)
      (chunk_count n) 0 []

abbrev with_error : List (List ChunkTask) × Bool → List (List ChunkTask) × Option PrepareError
with_error (batches, true) = (batches, some cancelled)
with_error (batches, false) = (batches, none)

-- The part of PrepareTasks behind the choice of the state: the batches and the error.
unfoldable pub plan :
    Requester
    → World
    → Bytes
    → Bool
    → Bool
    → ℤ
    → DownloadState
    → List (List ChunkTask) × Option PrepareError
plan r w name is_bit_torrent is_video_stream size state =
    let storage = some (create_storage_handler r.storage_type size w.target_mapped) in
    if is_bit_torrent
    then ((whole_task r name size none ∷ []) ∷ [], none)
    else if is_video_stream
    then ((whole_task r name (negsuc 0) none ∷ []) ∷ [], none)
    else if not w.target_opened
    then ([], some target_failed)
    else if leb_ℤ size (pos 0)
    then ((whole_task r name (negsuc 0) storage ∷ []) ∷ [], none)
    else with_error (plan_chunks r w name (pos_part size) storage state)

unfoldable pub is_bit_torrent : Library → Bytes → Bool
unfolding has_prefix to_lower
is_bit_torrent lib resource =
    has_prefix (to_lower resource) (codes "magnet:") || is_torrent_resource lib resource

abbrev failed : World → PrepareError → Prepared
failed w e = record { batches = []; failure = some e; state = none; state_file = w.state_file }

-- The tasks, and the state as the deferred Close leaves it.
abbrev finished :
    Requester → World → DownloadState → List (List ChunkTask) × Option PrepareError → Prepared
finished r w s (batches, failure) = record {
  batches = if r.submits then batches else [];
  failure = failure;
  state = some (close w.creating s).0;
  state_file = file_of s;
}

abbrev prepared :
    Library → Requester → World → ResourceMetadata → Outcome DownloadState → Outcome Prepared
prepared lib r w meta panic = panic
prepared lib r w meta (err e) = ok (failed w state_failed)
prepared lib r w meta (ok s) = ok (
    finished r w s (
      plan r w (target_name lib r.output_dir r.resource) (is_bit_torrent lib r.resource)
        (is_video_stream_resource lib r.resource) meta.size s))

-- PrepareTasks
unfoldable pub prepare_tasks : Codec → Library → Requester → World → Outcome Prepared
prepare_tasks codec lib r w = elim w.probed [
  | none ↦ ok (failed w probe_failed)
  | some meta ↦
      prepared lib r w meta (choose_state codec w r.resource meta.size meta.etag meta.last_modified)
]
