-- ===== src/Requester/Prepare.antt =====
-- PrepareTasks as a whole: which chunks of a plain file it submits, and the state that it leaves.
use oget.Prelude.{
  ℕ, zero, suc, ◌+◌, ◌^◌, ◌<◌, ◌≤◌, ◌≡◌, refl, Bool, true, false, Option, none, some, List, [], ◌∷◌,
  ◌++◌, arith, leb, length, map, concat, append-nil, Bool-cases, inl, inr, ap, sym, subst, ◌∙◌,
  Option-cases, ◌⊎◌,
}
use oget.Prelude.Int.{pos}
use oget.Prelude.Text.{Bytes}
use oget.State.{
  Info, Bitset, DownloadState, Codec, Answers, ok, is_complete, is_server_changed, load_state, save,
  close, state_header_size, file_of,
}
use oget.State.Sizes.{bytes}
use oget.State.Mark.{opened}
use mathlib.Core.Path.{fun_ext}
use oget.State.Stored.{IsFaithful, IsStored, with_header}
use oget.State.Create.{
  CanCreate, CanLoad, info_of, bitset_of, new_download_state_ok, is_complete-bitset_of,
  load_state-IsStored,
}
use oget.State.Resume.{mark_all, mark_all-closed, is_complete-restarted}
use oget.Task.{ChunkTask, StorageKind, range_size}
use oget.Url.{Library}
use oget.Resource.{is_video_stream_resource}
use oget.FileName.{target_name}
use oget.Requester.{
  ResourceMetadata, Requester, World, Prepared, create_storage_handler, chunk_count, batch_size,
  split, find_state, begin_state, choose_state, saved_or, chunk_task, plan_chunks, plan,
  is_bit_torrent, prepare_tasks,
}
use oget.Requester.Split.{unfinished, split-Spells}

split_uncancelled :
    (done complete : ℕ → Bool) (task : ℕ → ChunkTask) (size k i : ℕ) (batch : List ChunkTask)
    → ((j : ℕ) → done j ≡ false)
    → (split done complete task size k i batch).1 ≡ false
unfolding split
split_uncancelled done complete task size zero i [] h = refl
split_uncancelled done complete task size zero i (t ∷ ts) h = refl
split_uncancelled done complete task size (suc k) i batch h = ground (
  arith,
  h i,
  split_uncancelled done complete task size k (suc i) batch h,
  split_uncancelled done complete task size k (suc i) [] h,
  split_uncancelled done complete task size k (suc i) (batch ++ task i ∷ []) h,
)

-- A file of n > 0 bytes that neither a torrent nor a stream describes, whose target can be opened,
-- for a caller that takes tasks and never cancels.
pub record IsPlain (lib : Library) (r : Requester) (w : World) (meta : ResourceMetadata) (n : ℕ)
    : Type 0 where
  pub probed : w.probed ≡ some meta
  pub sized : meta.size ≡ pos n
  pub positive : 0 < n
  pub fits : n + range_size + 8 < 2 ^ 63
  pub no_torrent : is_bit_torrent lib r.resource ≡ false
  pub no_stream : is_video_stream_resource lib r.resource ≡ false
  pub target_opens : w.target_opened ≡ true
  pub takes : r.submits ≡ true
  pub uncancelled : (j : ℕ) → w.done j ≡ false

-- The tasks of the chunks that pass as unfinished.
abbrev pub tasks_of :
    Library → Requester → World → ResourceMetadata → ℕ → (ℕ → Bool) → List ChunkTask
tasks_of lib r w meta n complete =
    map
      (chunk_task r (target_name lib r.output_dir r.resource) n
        (some (create_storage_handler r.storage_type meta.size w.target_mapped)))
      (unfinished complete 0 (chunk_count n))

-- PrepareTasks returns with no error, and submitted exactly the tasks that are expected.
abbrev pub Submits : Codec → Library → Requester → World → List ChunkTask → Type 0
Submits codec lib r w expected =
    (p : Prepared) × (prepare_tasks codec lib r w ≡ ok p)
    × (p.failure ≡ none)
    × (concat p.batches ≡ expected)

module _ (codec : Codec) (lib : Library) (r : Requester) (w : World) (meta : ResourceMetadata)
    (n : ℕ) (h : IsPlain lib r w meta n) where
  abbrev name : Bytes
  name = target_name lib r.output_dir r.resource

  abbrev storage : Option StorageKind
  storage = some (create_storage_handler r.storage_type meta.size w.target_mapped)

  abbrev out : DownloadState → List (List ChunkTask) × Bool
  out s = plan_chunks r w name n storage s

  out_uncancelled : (s : DownloadState) → (out s).1 ≡ false
  unfolding plan_chunks
  out_uncancelled s = split_uncancelled w.done _ _ _ (chunk_count n) 0 [] h.uncancelled

  plan_plain :
      (s : DownloadState)
      → plan r w name
          (is_bit_torrent lib r.resource)
          (is_video_stream_resource lib r.resource)
          meta.size
          s
        ≡ ((out s).0, none)
  unfolding plan
  plan_plain s =
      rw (h.no_torrent, h.no_stream, h.target_opens)
        (ground (arith, h.sized, h.positive, out_uncancelled s))

  concat-out : (s : DownloadState) → concat (out s).0 ≡ tasks_of lib r w meta n (is_complete s)
  unfolding plan_chunks
  concat-out s =
      let task = chunk_task r name n storage in
      let (rest, spelled, whole) =
        split-Spells w.done (is_complete s) task (batch_size r.task_batch_size) (chunk_count n) 0
          [] in
      sym (append-nil _)
      ∙ ap (λ t. concat (out s).0 ++ t) (sym (whole (out_uncancelled s)))
      ∙ spelled

  chosen-Submits :
      (s : DownloadState)
      → choose_state codec w r.resource meta.size meta.etag meta.last_modified ≡ ok s
      → Submits codec lib r w (tasks_of lib r w meta n (is_complete s))
  unfolding prepare_tasks
  chosen-Submits s e = (
    record {
      batches = (out s).0;
      failure = none;
      state = some (close w.creating s).0;
      state_file = file_of s;
    },
    ground (arith, h.probed, e, plan_plain s, h.takes),
    refl,
    concat-out s,
  )

-- A Save, successful or not, leaves a state with the same finished chunks.
saved_or-opened :
    (codec : Codec) (os : Answers) (i : Info) (b : Bitset)
    → (t : DownloadState) × (saved_or (opened i b) (save codec os (opened i b)) ≡ ok t)
      × (is_complete t ≡ is_complete (opened i b))
unfolding save is_complete
saved_or-opened codec os i b = elim (Option-cases (codec.marshal i)) [
  | inl e ↦ (opened i b, rw e, refl)
  | inr (d, e) ↦ elim (Bool-cases (leb (length d) state_header_size)) [
    | inr l ↦ (opened i b, rw (e, l), refl)
    | inl l ↦ elim (Bool-cases os.written) [
      | inr v ↦ (opened i b, rw (e, l, v), refl)
      | inl v ↦ elim (Bool-cases os.synced) [
        | inr y ↦ (opened i b, rw (e, l, v, y), refl)
        | inl y ↦ (opened i (with_header b d), rw (e, l, v, y), refl)
      ]
    ]
  ]
]

module _ (codec : Codec) (lib : Library) (r : Requester) (w : World) (meta : ResourceMetadata)
    (n : ℕ) (h : IsPlain lib r w meta n) where
  -- The state of a download that begins anew.
  begun :
      CanCreate w.creating
      → (t : DownloadState) × (begin_state codec w r.resource meta.size meta.etag meta.last_modified
          ≡ ok t)
        × (is_complete t
            ≡ is_complete (
                opened
                  (info_of w.now r.resource n range_size)
                  (bitset_of w.creating w.state_file n range_size)))
  unfolding begin_state
  begun c =
      let i = info_of w.now r.resource n range_size in
      let i' = record i { etag = meta.etag; last_modified = meta.last_modified } in
      let b = bitset_of w.creating w.state_file n range_size in
      let (t, e, k) = saved_or-opened codec w.creating i' b in
      (
        t,
        rw
            (
              h.sized,
              new_download_state_ok w.creating w.now r.resource n range_size w.state_file c
                  (omega arith) h.fits,
            )
            e,
        k ∙ (unfold is_complete in refl),
      )

  -- For a plain file: with no state file, and where a new one can be made, PrepareTasks returns with
  -- no error and every chunk of the file has been submitted, in order.
  pub prepare_fresh :
      w.state_file ≡ none
      → CanCreate w.creating
      → Submits codec lib r w (tasks_of lib r w meta n (λ i. false))
  prepare_fresh none_there c =
      let (t, e, k) = begun c in
      let chosen : choose_state codec w r.resource meta.size meta.etag meta.last_modified ≡ ok t =
        unfold choose_state find_state in ground (arith, none_there, e) in
      let nothing : is_complete t ≡ (λ i. false) =
        k ∙ rw none_there (fun_ext (is_complete-bitset_of w.creating _ n range_size)) in
      subst (λ f. Submits codec lib r w (tasks_of lib r w meta n f)) nothing
        (chosen-Submits codec lib r w meta n h t chosen)

  module _ (kept : Info) (b : Bitset) (stored : IsStored codec kept b)
      (there : w.state_file ≡ some b.file) (faithful : IsFaithful codec)
      (loads : CanLoad w.loading) where
    abbrev loaded : DownloadState
    loaded =
        opened (record kept { updated_at = codec.stored_time kept.updated_at })
          (record b { is_mmap = w.loading.mapped })

    load_there : load_state codec w.loading b.file ≡ ok loaded
    load_there = load_state-IsStored codec w.loading kept b faithful loads stored

    abbrev changed : Bool
    changed = is_server_changed (opened kept b) meta.etag meta.last_modified

    changed-loaded : is_server_changed loaded meta.etag meta.last_modified ≡ changed
    changed-loaded = unfold is_server_changed in refl

    find_kept :
        kept.file_size ≡ pos n
        → changed ≡ false
        → w.target_exists ≡ true
        → find_state codec w meta.size meta.etag meta.last_modified ≡ ok (some loaded)
    unfolding find_state
    find_kept size same target = ground (arith, there, load_there, h.sized, changed-loaded)

    find_dropped :
        (changed ≡ true) ⊎ (w.target_exists ≡ false)
        → find_state codec w meta.size meta.etag meta.last_modified ≡ ok none
    unfolding find_state
    find_dropped other = ground (arith, there, load_there, changed-loaded)

    -- For a plain file: let the state file hold the state of an earlier run, which loads, for a file
    -- of the same size and validators that have not changed, and let the target be in place. Then
    -- PrepareTasks returns with no error, and exactly the chunks that this state does not show as
    -- finished have been submitted, in order.
    pub prepare_resumed :
        kept.file_size ≡ pos n
        → changed ≡ false
        → w.target_exists ≡ true
        → Submits codec lib r w (tasks_of lib r w meta n (is_complete (opened kept b)))
    prepare_resumed size same target =
        let found = find_kept size same target in
        let chosen : choose_state codec w r.resource meta.size meta.etag meta.last_modified
            ≡ ok loaded =
          unfold choose_state in rw found in
        let bits : is_complete loaded ≡ is_complete (opened kept b) = unfold is_complete in refl in
        subst (λ f. Submits codec lib r w (tasks_of lib r w meta n f)) bits
          (chosen-Submits codec lib r w meta n h loaded chosen)

    -- For a plain file: let the state file hold the state of an earlier run, which loads and has as
    -- many bytes of bits, and let the validators of the server have changed or the target be missing.
    -- Where the new state can be made with a mapped bitset, PrepareTasks returns with no error, and
    -- the chunks that the earlier run finished have been left out all the same.
    pub prepare_restarted :
        (changed ≡ true) ⊎ (w.target_exists ≡ false)
        → CanCreate w.creating
        → w.creating.mapped ≡ true
        → length b.bits ≡ bytes n range_size
        → state_header_size + bytes n range_size ≤ b.file.size
        → Submits codec lib r w (tasks_of lib r w meta n (is_complete (opened kept b)))
    prepare_restarted other c m same_size long =
        let (t, e, k) = begun c in
        let found = find_dropped other in
        let chosen : choose_state codec w r.resource meta.size meta.etag meta.last_modified ≡ ok t =
          unfold choose_state in rw found e in
        let stale : is_complete t ≡ is_complete (opened kept b) =
          k
          ∙ rw there (
              fun_ext (
                is_complete-restarted codec w.creating _ kept b n range_size stored m same_size
                  long)) in
        subst (λ f. Submits codec lib r w (tasks_of lib r w meta n f)) stale
          (chosen-Submits codec lib r w meta n h t chosen)

-- When PrepareTasks has returned, its state is closed.
prepared_closed :
    (codec : Codec) (lib : Library) (r : Requester) (w : World) (p : Prepared) (s : DownloadState)
    → prepare_tasks codec lib r w ≡ ok p
    → p.state ≡ some s
    → s.bitset ≡ none
unfolding prepare_tasks close
prepared_closed codec lib r w p s e e' = ground arith

-- When PrepareTasks has returned, the state that it made or loaded is closed: every later
-- MarkComplete, such as those of the tasks, leaves it as it is, and no chunk is complete in it.
pub prepare_records_nothing :
    (codec : Codec) (lib : Library) (r : Requester) (w : World) (p : Prepared) (s : DownloadState)
    (v : Bool) (es : List (ℕ × ℕ))
    → prepare_tasks codec lib r w ≡ ok p
    → p.state ≡ some s
    → (mark_all v s es ≡ s) × ((j : ℕ) → is_complete s j ≡ false)
prepare_records_nothing codec lib r w p s v es e e' =
    let closed = prepared_closed codec lib r w p s e e' in
    (mark_all-closed v s es closed, λ j. unfold is_complete in rw closed)
