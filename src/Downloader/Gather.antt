-- ===== src/Downloader/Gather.antt =====
-- Downloader.PrepareAllTasks of pkg/oget/downloader.go: the tasks of all URLs, and their total size.
use oget.Prelude.{
  ℕ, zero, suc, ◌+◌, ◌-◌, ◌^◌, ◌≤◌, ◌<◌, ◌≡◌, refl, false, Option, none, some, List, [], ◌∷◌, ◌++◌,
  arith, if◌then◌else◌, map, concat, append_assoc, append-nil, ap, sym, ◌∙◌, Bool-cases, inl, inr,
}
use oget.Prelude.Int.{ℤ, pos, pos_part, ltb_ℤ, add64, add64_pos}
use oget.Prelude.Text.{Bytes}
use oget.State.{Codec, Outcome, ok, err, panic}
use oget.State.Create.{CanCreate}
use oget.Task.{ChunkTask, StorageKind}
use oget.Url.{Library}
use oget.Requester.{
  ResourceMetadata, Requester, World, Prepared, prepare_tasks, create_storage_handler, chunk_task,
  chunk_count, chunk_offset, chunk_length,
}
use oget.Requester.Split.{unfinished}
use oget.Requester.Prepare.{IsPlain, tasks_of, prepare_fresh}
use oget.FileName.{target_name}
use oget.HuggingFace.{HfSpec, is_hf_resource, parse_hf_spec}
use oget.HuggingFace.Files.{Resolved, urls}

-- The URLs with those of the models in place of the models; `none` where the files of a model cannot
-- be found. A specification that cannot be parsed stays as it is.
unfoldable pub resolve_urls : (HfSpec → Resolved) → List Bytes → Option (List Bytes)
unfolding is_hf_resource parse_hf_spec
resolve_urls resolve [] = some []
resolve_urls resolve (u ∷ us) =
    let rest = resolve_urls resolve us in
    let keep : Option (List Bytes) = elim rest [ none ↦ none | some vs ↦ some (u ∷ vs) ] in
    if is_hf_resource u
    then elim (parse_hf_spec u) [
      | none ↦ keep
      | some spec ↦ elim (resolve spec) [
        | urls found ↦ elim rest [ none ↦ none | some vs ↦ some (found ++ vs) ]
        | _ ↦ none
      ]
    ]
    else keep

-- d.TotalSize, an int64, behind the tasks of positive length that are added to it
unfoldable pub add_lengths : List ChunkTask → ℤ → ℤ
unfolding add64
add_lengths [] total = total
add_lengths (t ∷ ts) total =
    let added = if ltb_ℤ (pos 0) t.length then add64 total t.length else total in
    add_lengths ts added

-- allTasks, requesters as their resources, and TotalSize
pub record Gathered : Type 0 where
  pub tasks : List ChunkTask
  pub requesters : List Bytes
  pub total_size : ℤ

-- what PrepareTasks of one URL adds; where it failed, nothing
abbrev pub gather_one : Bytes → Prepared → Gathered → Gathered
gather_one u p g = elim p.failure [
  | some e ↦ g
  | none ↦ record {
    tasks = g.tasks ++ concat p.batches;
    requesters = g.requesters ++ u ∷ [];
    total_size = add_lengths (concat p.batches) g.total_size;
  }
]

-- the loop over the URLs, where `prepare` is PrepareTasks of a URL
unfoldable pub gather : (Bytes → Outcome Prepared) → List Bytes → Gathered → Outcome Gathered
gather prepare [] g = ok g
gather prepare (u ∷ us) g = elim (prepare u) [
  | panic ↦ panic
  | err e ↦ err e
  | ok p ↦ gather prepare us (gather_one u p g)
]

abbrev pub nothing_yet : Gathered
nothing_yet = record { tasks = []; requesters = []; total_size = pos 0 }

-- PrepareAllTasks; `none` is its error, where a model could not be resolved
unfoldable pub prepare_all_tasks :
    (HfSpec → Resolved) → (Bytes → Outcome Prepared) → List Bytes → Option (Outcome Gathered)
unfolding resolve_urls gather
prepare_all_tasks resolve prepare us = elim (resolve_urls resolve us) [
  | none ↦ none
  | some vs ↦ some (gather prepare vs nothing_yet)
]

chunks_end : (n : ℕ) → n ≤ chunk_offset (chunk_count n)
unfolding chunk_count
chunks_end n = ground arith

chunk_step :
    (n i : ℕ)
    → i < chunk_count n
    → chunk_length n i + (n - chunk_offset (suc i)) ≡ n - chunk_offset i
unfolding chunk_length
chunk_step n i h = ground arith

-- the sum of the lengths
abbrev total_length : List ChunkTask → ℕ
total_length [] = 0
total_length (t ∷ ts) = pos_part t.length + total_length ts

-- Within int64 the sum does not wrap.
add_lengths-sum :
    (ts : List ChunkTask) (a : ℕ)
    → a + total_length ts < 2 ^ 63
    → add_lengths ts (pos a) ≡ pos (a + total_length ts)
unfolding add_lengths
add_lengths-sum [] a h = ground arith
add_lengths-sum (t ∷ ts) a h = elim (Bool-cases (ltb_ℤ (pos 0) t.length)) [
  | inl some_bytes ↦
      let whole : t.length ≡ pos (pos_part t.length) = ground arith in
      let sum : add64 (pos a) t.length ≡ pos (a + pos_part t.length) =
        ap (add64 (pos a)) whole ∙ add64_pos a (pos_part t.length) (omega arith) in
      rw (some_bytes, add_lengths)
        (ap (add_lengths ts) sum
          ∙ add_lengths-sum ts (a + pos_part t.length) (omega arith)
          ∙ ap pos (omega arith))
  | inr none_there ↦
      let nothing : pos_part t.length ≡ 0 = ground arith in
      rw (none_there, add_lengths)
        (add_lengths-sum ts a (omega arith) ∙ ap pos (omega (arith, nothing)))
]

-- The chunks from chunk i on have the bytes of the file from there on.
total_length-chunks :
    (r : Requester) (name : Bytes) (n : ℕ) (kind : Option StorageKind) (k i : ℕ)
    → i + k ≡ chunk_count n
    → total_length (map (chunk_task r name n kind) (unfinished (λ j. false) i k))
      ≡ n - chunk_offset i
unfolding chunk_task
total_length-chunks r name n kind zero i h =
    let at : i ≡ chunk_count n = omega arith in omega (arith, chunks_end n, ap chunk_offset at)
total_length-chunks r name n kind (suc k) i h =
    omega (
      arith,
      total_length-chunks r name n kind k (suc i) (omega arith),
      chunk_step n i (omega arith),
    )

total_length-append :
    (xs ys : List ChunkTask) → total_length (xs ++ ys) ≡ total_length xs + total_length ys
total_length-append [] ys = omega arith
total_length-append (x ∷ xs) ys = omega (arith, total_length-append xs ys)

-- Every URL is that of a plain file of `size u` bytes, whose download begins anew.
abbrev pub AllFresh :
    Library
    → (Bytes → Requester)
    → (Bytes → World)
    → (Bytes → ResourceMetadata)
    → (Bytes → ℕ)
    → List Bytes
    → Type 0
AllFresh lib request world meta size [] = Unit
AllFresh lib request world meta size (u ∷ us) =
    (is_hf_resource u ≡ false)
    × IsPlain lib (request u) (world u) (meta u) (size u)
    × ((world u).state_file ≡ none)
    × CanCreate (world u).creating
    × AllFresh lib request world meta size us

abbrev pub sum_of : (Bytes → ℕ) → List Bytes → ℕ
sum_of size [] = 0
sum_of size (u ∷ us) = size u + sum_of size us

gather_one_well :
    (u : Bytes) (p : Prepared) (g : Gathered)
    → p.failure ≡ none
    → gather_one u p g ≡ record {
      tasks = g.tasks ++ concat p.batches;
      requesters = g.requesters ++ u ∷ [];
      total_size = add_lengths (concat p.batches) g.total_size;
    }
gather_one_well u p g h = rw h refl

abbrev gathered_of : List ChunkTask → List Bytes → ℤ → Outcome Gathered
gathered_of xs us n = ok (record { tasks = xs; requesters = us; total_size = n })

gathered :
    {xs xs' : List ChunkTask} {us us' : List Bytes} {n n' : ℤ}
    → xs ≡ xs'
    → us ≡ us'
    → n ≡ n'
    → gathered_of xs us n ≡ gathered_of xs' us' n'
gathered p q r = cc

module _ (codec : Codec) (lib : Library) (request : Bytes → Requester) (world : Bytes → World)
    (meta : Bytes → ResourceMetadata) (size : Bytes → ℕ) where
  abbrev prepare : Bytes → Outcome Prepared
  prepare u = prepare_tasks codec lib (request u) (world u)

  -- the tasks of a URL: those of all its chunks
  abbrev all_tasks : Bytes → List ChunkTask
  all_tasks u = tasks_of lib (request u) (world u) (meta u) (size u) (λ i. false)

  total_length-all_tasks : (u : Bytes) → total_length (all_tasks u) ≡ size u
  total_length-all_tasks u =
      let whole =
        total_length-chunks (request u)
          (target_name lib (request u).output_dir (request u).resource) (size u)
          (some
            (create_storage_handler (request u).storage_type (meta u).size (world u).target_mapped))
          (chunk_count (size u)) 0 (omega arith) in
      omega (arith, whole)

  resolve_urls-AllFresh :
      (resolve : HfSpec → Resolved) (us : List Bytes)
      → AllFresh lib request world meta size us
      → resolve_urls resolve us ≡ some us
  unfolding resolve_urls
  resolve_urls-AllFresh resolve [] h = refl
  resolve_urls-AllFresh resolve (u ∷ us) (no_model, plain, no_state, can, rest) =
      rw (no_model, resolve_urls-AllFresh resolve us rest) refl

  gather-AllFresh :
      (us : List Bytes) (g : Gathered) (a : ℕ)
      → g.total_size ≡ pos a
      → a + sum_of size us < 2 ^ 63
      → AllFresh lib request world meta size us
      → gather prepare us g
        ≡ ok (record {
          tasks = g.tasks ++ concat (map all_tasks us);
          requesters = g.requesters ++ us;
          total_size = pos (a + sum_of size us);
        })
  unfolding gather
  gather-AllFresh [] g a at few h =
      gathered (sym (append-nil g.tasks)) (sym (append-nil g.requesters))
        (at ∙ ap pos (omega arith))
  gather-AllFresh (u ∷ us) g a at few (no_model, plain, no_state, can, rest) =
      let (p, e, well, tasks) =
        prepare_fresh codec lib (request u) (world u) (meta u) (size u) plain no_state can in
      let bytes = ap total_length tasks ∙ total_length-all_tasks u in
      let total : add_lengths (concat p.batches) g.total_size ≡ pos (a + size u) =
        ap (add_lengths (concat p.batches)) at
        ∙ add_lengths-sum (concat p.batches) a (omega (arith, bytes))
        ∙ ap pos (omega (arith, bytes)) in
      let g' : Gathered = record {
        tasks = g.tasks ++ concat p.batches;
        requesters = g.requesters ++ u ∷ [];
        total_size = add_lengths (concat p.batches) g.total_size;
      } in
      let one : gather_one u p g ≡ g' = gather_one_well u p g well in
      rw (e, gather)
        (ap (gather prepare us) one
          ∙ gather-AllFresh us g' (a + size u) total (omega arith) rest
          ∙ gathered
              (ap (λ ts. g.tasks ++ ts ++ concat (map all_tasks us)) tasks
                ∙ append_assoc g.tasks (all_tasks u) (concat (map all_tasks us)))
              (append_assoc g.requesters (u ∷ []) us) (ap pos (omega arith)))

  -- The download of new plain files: where no URL is a model, each one is that of a plain file without
  -- a state file, the state files can be made, and the sizes add up to less than 2 ^ 63,
  -- PrepareAllTasks returns the tasks of all chunks of all files, in the order of the URLs. TotalSize
  -- is the sum of the sizes of the files.
  pub prepare_all_tasks_fresh :
      (resolve : HfSpec → Resolved) (us : List Bytes)
      → AllFresh lib request world meta size us
      → sum_of size us < 2 ^ 63
      → prepare_all_tasks resolve prepare us
        ≡ some (
            ok (record {
              tasks = concat (map all_tasks us);
              requesters = us;
              total_size = pos (sum_of size us);
            }))
  unfolding prepare_all_tasks
  prepare_all_tasks_fresh resolve us h few =
      rw (resolve_urls-AllFresh resolve us h, prepare_all_tasks)
        (ap some (
          gather-AllFresh us nothing_yet 0 refl (omega arith) h
          ∙ gathered refl refl (ap pos (omega arith))))
