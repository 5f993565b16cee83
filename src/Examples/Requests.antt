-- ===== src/Examples/Requests.antt =====
-- The theorems about pkg/oget/requester.go at concrete inputs.
use oget.Prelude.{
  ℕ, ◌+◌, ◌/◌, ◌<◌, ◌≤◌, ◌≡◌, ◌↔◌, refl, Bool, true, false, Option, none, some, List, [], ◌∷◌,
  arith, inl, inr, map, concat,
}
use oget.Prelude.Int.{pos, div64, add64, sub64}
use oget.Prelude.Text.{Bytes, codes, has_prefix, to_lower, trim_space}
use oget.HuggingFace.{is_hf_resource}
use oget.HuggingFace.Files.{Resolved}
use oget.Downloader.Gather.{AllFresh, sum_of, prepare_all_tasks, prepare_all_tasks_fresh}
use oget.File
use oget.File.{File, write_at}
use oget.State.{
  DownloadState, is_complete, is_server_changed, ok, err, panic, state_header_size, set_bit,
  new_download_state, save, close, num_chunks, num_bytes,
}
use oget.State.Mark.{opened}
use oget.State.Create.{info_of}
use oget.State.Resume.{mark_all}
use oget.State.Sizes.{bytes}
use oget.Task.{range_size}
use oget.Resource.{is_video_stream_resource, is_torrent_resource}
use oget.Requester.{
  Requester, World, ResourceMetadata, Prepared, is_bit_torrent, chunk_offset, chunk_length,
  chunk_count, prepare_tasks, choose_state, find_state, begin_state,
}
use oget.Requester.Split.{chunk_cover}
use oget.Requester.Prepare.{
  IsPlain, Submits, tasks_of, prepare_resumed, prepare_restarted, prepare_records_nothing,
}
use oget.Samples.{
  toy_codec, toy_codec-IsFaithful, toy_library, all_well, sample_info, sample_bitset,
  sample_bitset-IsStored, sample_length, sample_size,
}

abbrev requester : Requester
requester = record {
  resource = codes "ftp://h/a";
  output_dir = [];
  storage_type = codes "mmap";
  task_batch_size = pos 2;
  submits = true;
  reports = true;
}

abbrev probed : ResourceMetadata
probed = record { size = pos sample_size; etag = []; last_modified = [] }

-- no state file
abbrev fresh : World
fresh = record {
  probed = some probed;
  state_file = none;
  target_exists = false;
  loading = all_well;
  creating = all_well;
  target_opened = true;
  target_mapped = true;
  done = λ i. false;
  now = 5;
}

-- the state file of an earlier run, and the target
abbrev interrupted : World
interrupted = record fresh { state_file = some sample_bitset.file; target_exists = true }

-- the state file of an earlier run, without the target
abbrev target_gone : World
target_gone = record fresh { state_file = some sample_bitset.file }

no_torrent : is_bit_torrent toy_library (codes "ftp://h/a") ≡ false
unfolding is_bit_torrent is_torrent_resource
no_torrent = refl

no_stream : is_video_stream_resource toy_library (codes "ftp://h/a") ≡ false
unfolding is_video_stream_resource
no_stream = refl

abbrev plain :
    (f : Option File) (e : Bool)
    → IsPlain toy_library requester
        (record fresh { state_file = f; target_exists = e })
        probed
        sample_size
plain f e = record {
  probed = refl;
  sized = refl;
  positive = omega arith;
  fits = omega arith;
  no_torrent = no_torrent;
  no_stream = no_stream;
  target_opens = refl;
  takes = refl;
  uncancelled = λ j. refl;
}

same_server : is_server_changed (opened sample_info sample_bitset) [] [] ≡ false
unfolding is_server_changed
same_server = refl

prepare_resumed_example : Submits toy_codec toy_library requester interrupted (
    tasks_of toy_library requester interrupted probed sample_size
      (is_complete (opened sample_info sample_bitset)))
prepare_resumed_example =
    prepare_resumed toy_codec toy_library requester interrupted probed sample_size
      (plain (some sample_bitset.file) true) sample_info sample_bitset sample_bitset-IsStored refl
      toy_codec-IsFaithful (refl, refl, inl refl) refl same_server refl

sample_file_size : state_header_size + bytes sample_size range_size ≤ sample_bitset.file.size
unfolding set_bit write_at File.truncate
sample_file_size = omega arith

prepare_restarted_example : Submits toy_codec toy_library requester target_gone (
    tasks_of toy_library requester target_gone probed sample_size
      (is_complete (opened sample_info sample_bitset)))
prepare_restarted_example =
    prepare_restarted toy_codec toy_library requester target_gone probed sample_size
      (plain (some sample_bitset.file) false) sample_info sample_bitset sample_bitset-IsStored refl
      toy_codec-IsFaithful (refl, refl, inl refl) (inr refl) (refl, refl, inl refl) refl
      (omega (arith, sample_length)) sample_file_size

abbrev result : Prepared
result = elim (prepare_tasks toy_codec toy_library requester fresh) [
  | ok p ↦ p
  | err e ↦ record { batches = []; failure = none; state = none; state_file = none }
  | panic ↦ record { batches = []; failure = none; state = none; state_file = none }
]

-- the state that `result` leaves
abbrev closed : DownloadState
closed = record { info = info_of 5 (codes "ftp://h/a") sample_size range_size; bitset = none }

result_happens : prepare_tasks toy_codec toy_library requester fresh ≡ ok result
unfolding prepare_tasks choose_state find_state begin_state new_download_state save num_chunks
    num_bytes div64 add64 sub64
result_happens = refl

result_state : result.state ≡ some closed
unfolding prepare_tasks choose_state find_state begin_state new_download_state save close num_chunks
    num_bytes div64 add64 sub64
result_state = refl

prepare_records_nothing_example :
    (mark_all true closed ((9, 0) ∷ []) ≡ closed) × ((j : ℕ) → is_complete closed j ≡ false)
prepare_records_nothing_example =
    prepare_records_nothing toy_codec toy_library requester fresh result closed true ((9, 0) ∷ [])
      result_happens result_state

chunk_cover_example :
    ((chunk_offset 2 ≤ 2400000) × (2400000 < chunk_offset 2 + chunk_length sample_size 2))
    ↔ ((2400000 < sample_size) × (2 ≡ 2400000 / range_size))
unfolding chunk_count
chunk_cover_example = chunk_cover sample_size 2 2400000 (omega arith)

abbrev request : Bytes → Requester
request u = record requester { resource = u }

-- one URL, twice
abbrev twice : List Bytes
twice = codes "ftp://h/a" ∷ codes "ftp://h/a" ∷ []

no_model : is_hf_resource (codes "ftp://h/a") ≡ false
unfolding is_hf_resource has_prefix to_lower trim_space
no_model = refl

twice-AllFresh : AllFresh toy_library request (λ u. fresh) (λ u. probed) (λ u. sample_size) twice
twice-AllFresh = (
  no_model,
  plain none false,
  refl,
  (refl, refl, inl refl),
  (no_model, plain none false, refl, (refl, refl, inl refl), tt),
)

prepare_all_tasks_fresh_example :
    prepare_all_tasks
      (λ s. Resolved.decode_failed)
      (λ u. prepare_tasks toy_codec toy_library (request u) fresh)
      twice
    ≡ some (
        ok (record {
          tasks = concat (
              map
                (λ u. tasks_of toy_library (request u) fresh probed sample_size (λ i. false))
                twice);
          requesters = twice;
          total_size = pos (sum_of (λ u. sample_size) twice);
        }))
prepare_all_tasks_fresh_example =
    prepare_all_tasks_fresh toy_codec toy_library request (λ u. fresh) (λ u. probed)
      (λ u. sample_size) (λ s. Resolved.decode_failed) twice twice-AllFresh (omega arith)
