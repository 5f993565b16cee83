-- ===== src/HuggingFace/Matches.antt =====
-- Which files of a repository a target names.
use mathlib.Core.List.Memᴰ
use mathlib.Core.List.{Memᴰ}
use oget.Prelude.{
  ◌≡◌, refl, Bool, true, not, ◌&&◌, ◌||◌, none, some, List, [], ◌∷◌, ◌++◌, ◌==◌, arith,
  if◌then◌else◌, map, inl, inr, Bool-cases, Option-cases, ap, sym, subst, ◌∙◌, ◌≢◌, ◌↔◌,
}
use oget.Prelude.Members.{Memᴰ-select}
use oget.Prelude.Text.{Bytes, codes, str_eq, is_empty}
use oget.HuggingFace.{HfSpec, get_hf_endpoint, get_hf_token}
use oget.HuggingFace.Files.{
  HfFile, Tools, is_file, files_that, first_that, or_else, with_data, default_files, target_files,
  tagged_files, clean_target, match_hf_files, TreeAnswer, no_answer, answered, Resolved, urls,
  api_url, download_url, urls_or_error, resolve_hf_model_files,
}

-- Every one of the files is a file of the tree.
abbrev IsFilesOf : List HfFile → List HfFile → Type 0
IsFilesOf files fs = (f : HfFile) → Memᴰ f fs → Memᴰ f files × (is_file f ≡ true)

files_that-IsFilesOf :
    (p : HfFile → Bool) (files : List HfFile) → IsFilesOf files (files_that p files)
unfolding files_that
files_that-IsFilesOf p files f m =
    let (there, passes) = Memᴰ-select (λ f. is_file f && p f) f files m in (there, ground arith)

first_that-IsFilesOf :
    (p : HfFile → Bool) (files : List HfFile) → IsFilesOf files (first_that p files)
unfolding first_that
first_that-IsFilesOf p [] f m = absurd (Memᴰ.not-nil m)
first_that-IsFilesOf p (y ∷ ys) f m = elim (Bool-cases (is_file y && p y)) [
  | inl pass ↦
      let same =
        Memᴰ.eq_of_singleton (subst (λ b. Memᴰ f (if b then y ∷ [] else first_that p ys)) pass m) in
      (Memᴰ.head same, ap is_file same ∙ ground arith)
  | inr fails ↦
      let (there, passes) =
        first_that-IsFilesOf p ys f
          (subst (λ b. Memᴰ f (if b then y ∷ [] else first_that p ys)) fails m) in
      (Memᴰ.tail there, passes)
]

or_else-IsFilesOf :
    (files xs ys : List HfFile)
    → IsFilesOf files xs
    → IsFilesOf files ys
    → IsFilesOf files (or_else xs ys)
or_else-IsFilesOf files [] ys a b = b
or_else-IsFilesOf files (x ∷ xs) ys a b = a

append-IsFilesOf :
    (files xs ys : List HfFile)
    → IsFilesOf files xs
    → IsFilesOf files ys
    → IsFilesOf files (xs ++ ys)
append-IsFilesOf files xs ys a b f m = elim (Memᴰ.append_cases xs m) [
  | inl l ↦ a f l
  | inr r ↦ b f r
]

-- sort.Slice neither drops nor adds a file.
abbrev pub SortKeeps : Tools → Type 0
SortKeeps tools = (fs : List HfFile) (f : HfFile) → Memᴰ f (tools.sort fs) ↔ Memᴰ f fs

with_data-IsFilesOf :
    (files ns ds os : List HfFile)
    → IsFilesOf files ns
    → IsFilesOf files ds
    → IsFilesOf files os
    → IsFilesOf files (with_data ns ds os)
with_data-IsFilesOf files [] ds os a b c = c
with_data-IsFilesOf files (n ∷ ns) ds os a b c = append-IsFilesOf files (n ∷ ns) ds a b

module _ (tools : Tools) where
  default_files-IsFilesOf : (files : List HfFile) → IsFilesOf files (default_files tools files)
  unfolding default_files
  default_files-IsFilesOf files =
      let some_of : (p : HfFile → Bool) → IsFilesOf files (files_that p files) =
        λ p. files_that-IsFilesOf p files in
      or_else-IsFilesOf files _ _ (some_of _) (
        with_data-IsFilesOf files _ _ _ (some_of _) (some_of _)
          (or_else-IsFilesOf files _ _ (some_of _) (some_of _)))

  module _ (keeps : SortKeeps tools) where
    tagged_files-IsFilesOf :
        (files : List HfFile) (clean : Bytes) → IsFilesOf files (tagged_files tools files clean)
    unfolding tagged_files
    tagged_files-IsFilesOf files clean f m =
        or_else-IsFilesOf files _ _ tagged (files_that-IsFilesOf _ files) f ((keeps _ f).0 m)
      where
        tagged : IsFilesOf files (elim (tools.tag_pattern clean) [
          | none ↦ []
          | some p ↦ files_that (λ f. p f.path) files
        ])
        tagged = elim (Option-cases (tools.tag_pattern clean)) [
          | inl e ↦ rw e (λ f m. absurd (Memᴰ.not-nil m))
          | inr (p, e) ↦ rw e (files_that-IsFilesOf _ files)
        ]

    target_files-IsFilesOf :
        (files : List HfFile) (target : Bytes) → IsFilesOf files (target_files tools files target)
    unfolding target_files
    target_files-IsFilesOf files target =
        or_else-IsFilesOf files _ _ (first_that-IsFilesOf _ files) (
          or_else-IsFilesOf files _ _ (first_that-IsFilesOf _ files) (
            or_else-IsFilesOf files _ _ (files_that-IsFilesOf _ files)
              (tagged_files-IsFilesOf files (clean_target tools target))))

    match_hf_files-IsFilesOf :
        (files : List HfFile) (target : Bytes) → IsFilesOf files (match_hf_files tools files target)
    unfolding match_hf_files
    match_hf_files-IsFilesOf files target =
        elim (Bool-cases (str_eq target (codes "all") || str_eq target (codes "*"))) [
          | inl all ↦ rw all (files_that-IsFilesOf _ files)
          | inr e ↦ elim (Bool-cases (is_empty target)) [
            | inl none_given ↦ rw (e, none_given) (default_files-IsFilesOf files)
            | inr given ↦ rw (e, given) (target_files-IsFilesOf files target)
          ]
        ]

    abbrev Downloads : Bytes → HfSpec → List HfFile → List Bytes → Type 0
    Downloads endpoint spec files us =
        (u : Bytes)
        → Memᴰ u us
        → (f : HfFile) × Memᴰ f files × (is_file f ≡ true) × (u ≡ download_url endpoint spec f)

    urls_or_error-Downloads :
        (endpoint : Bytes) (spec : HfSpec) (files ms : List HfFile) (us : List Bytes)
        → IsFilesOf files ms
        → urls_or_error endpoint spec files ms ≡ urls us
        → (us ≢ []) × Downloads endpoint spec files us
    unfolding urls_or_error
    urls_or_error-Downloads endpoint spec files [] us h e = absurd (cc)
    urls_or_error-Downloads endpoint spec files (m ∷ ms) us h e =
        let same : map (download_url endpoint spec) (m ∷ ms) ≡ us = cc in
        (
          λ nothing. cc (same, nothing),
          λ u there.
              let (f, here, at) =
                Memᴰ.of_map (download_url endpoint spec) (m ∷ ms)
                  (subst (Memᴰ u) (sym same) there) in
              let (of_tree, a_file) = h f here in (f, of_tree, a_file, sym at),
        )

    -- Whatever the target and the answer of the site: where ResolveHFModelFiles returns URLs, there is
    -- at least one, and each of them is the download URL of a file of the tree that the site
    -- answered for the repository and the revision, with the status 200. It never is that of a
    -- directory. Sorting keeps the files.
    pub resolve_hf_model_files_lem :
        (api : Bytes → Bytes → TreeAnswer) (mirror env token env_token hub_token : Bytes)
        (spec : HfSpec) (us : List Bytes)
        → resolve_hf_model_files tools api mirror env token env_token hub_token spec ≡ urls us
        → let endpoint = get_hf_endpoint mirror env in
          (us ≢ [])
          × ((files : List HfFile) × (api
                  (api_url endpoint spec)
                  (get_hf_token token env_token hub_token)
                ≡ answered 200 (some files))
              × ((u : Bytes)
                  → Memᴰ u us
                  → (f : HfFile) × Memᴰ f files
                    × (is_file f ≡ true)
                    × (u ≡ download_url endpoint spec f)))
    unfolding resolve_hf_model_files
    resolve_hf_model_files_lem api mirror env token env_token hub_token spec us e =
        from
          (api (api_url (get_hf_endpoint mirror env) spec) (get_hf_token token env_token hub_token))
          refl e
      where
        from :
            (a : TreeAnswer)
            → api
                (api_url (get_hf_endpoint mirror env) spec)
                (get_hf_token token env_token hub_token)
              ≡ a
            → (elim a as (λ x. Resolved) [
              | no_answer ↦ Resolved.request_failed
              | answered status body ↦
                  if not (status == 200)
                  then Resolved.bad_status
                  else elim body as (λ x. Resolved) [
                    | none ↦ Resolved.decode_failed
                    | some files ↦
                        urls_or_error
                          (get_hf_endpoint mirror env)
                          spec
                          files
                          (match_hf_files tools files spec.target)
                  ]
            ])
              ≡ urls us
            → (us ≢ [])
              × ((files : List HfFile) × (api
                      (api_url (get_hf_endpoint mirror env) spec)
                      (get_hf_token token env_token hub_token)
                    ≡ answered 200 (some files))
                  × Downloads (get_hf_endpoint mirror env) spec files us)
        from no_answer q h = absurd (cc)
        from (answered status none) q h = absurd (ground arith)
        from (answered status (some files)) q h =
            let ok : status ≡ 200 = ground arith in
            let listed : urls_or_error (get_hf_endpoint mirror env) spec files
                  (match_hf_files tools files spec.target)
                ≡ urls us =
              ground arith in
            let (some_url, each) =
              urls_or_error-Downloads (get_hf_endpoint mirror env) spec files
                (match_hf_files tools files spec.target) us
                (match_hf_files-IsFilesOf files spec.target) listed in
            (some_url, (files, q ∙ ap (λ k. answered k (some files)) ok, each))
