-- ===== src/HuggingFace/Files.antt =====
-- matchHFFiles and ResolveHFModelFiles of pkg/oget/hf.go: the files of a repository that are
-- downloaded. Packages path and regexp, sort.Slice and the API of the site are arguments.
use oget.Prelude.{
  ◌-◌, Bool, true, not, ◌&&◌, ◌||◌, Option, none, some, List, [], ◌∷◌, ◌++◌, ◌==◌, if◌then◌else◌,
  length, take, map, select, ℕ,
}
use oget.Prelude.Text.{
  Bytes, codes, str_eq, to_lower, has_prefix, has_suffix, contains, is_empty, trim,
}
use oget.HuggingFace.{HfSpec, get_hf_endpoint, get_hf_token}

-- HFFileItem: its Type and Path
pub record HfFile : Type 0 where
  pub kind : Bytes
  pub path : Bytes

pub record Tools : Type 0 where
  -- path.Base and path.Dir
  pub base : Bytes → Bytes
  pub dir : Bytes → Bytes
  -- whether a path matches the expression that is made of a tag; `none` where it does not compile
  pub tag_pattern : Bytes → Option (Bytes → Bool)
  -- sort.Slice by the paths
  pub sort : List HfFile → List HfFile

unfoldable pub is_file : HfFile → Bool
unfolding str_eq
is_file f = str_eq f.kind (codes "file")

unfoldable pub lower_path : HfFile → Bytes
unfolding to_lower
lower_path f = to_lower f.path

-- the files whose type is "file" and that pass the test
unfoldable pub files_that : (HfFile → Bool) → List HfFile → List HfFile
unfolding is_file
files_that p files = select (λ f. is_file f && p f) files

-- the first of them, alone
unfoldable pub first_that : (HfFile → Bool) → List HfFile → List HfFile
unfolding is_file
first_that p [] = []
first_that p (f ∷ fs) = let rest = first_that p fs in if is_file f && p f then f ∷ [] else rest

-- the first list, or the second one where it is empty
abbrev pub or_else : List HfFile → List HfFile → List HfFile
or_else [] ys = ys
or_else (x ∷ xs) ys = x ∷ xs

-- the models that are called model.onnx and their data, or else the third list
abbrev pub with_data : List HfFile → List HfFile → List HfFile → List HfFile
with_data [] data_files others = others
with_data (n ∷ ns) data_files others = (n ∷ ns) ++ data_files

abbrev any_file : HfFile → Bool
any_file f = true

module _ (tools : Tools) where
  unfoldable pub lower_base : HfFile → Bytes
  unfolding to_lower
  lower_base f = to_lower (tools.base f.path)

  -- the files that are taken where no target is given
  unfoldable pub default_files : List HfFile → List HfFile
  unfolding files_that has_suffix has_prefix str_eq lower_path lower_base
  default_files files =
      let named =
        files_that
          (λ f.
            has_suffix (lower_path f) (codes ".onnx") && str_eq (lower_base f) (codes "model.onnx"))
          files in
      let data_files =
        files_that (λ f. has_prefix (lower_base f) (codes "model.onnx_data")) files in
      or_else (files_that (λ f. has_suffix (lower_path f) (codes ".gguf")) files) (
        with_data named data_files (
          or_else (files_that (λ f. has_suffix (lower_path f) (codes ".onnx")) files)
            (files_that any_file files)))

  -- strings.TrimSuffix(targetLower, ".gguf")
  unfoldable pub clean_target : Bytes → Bytes
  unfolding has_suffix to_lower
  clean_target target =
      let low = to_lower target in
      if has_suffix low (codes ".gguf") then take (length low - 5) low else low

  unfoldable pub in_directory : Bytes → HfFile → Bool
  unfolding str_eq has_prefix to_lower
  in_directory clean_dir f =
      let dir = to_lower (tools.dir f.path) in
      str_eq dir clean_dir || has_prefix dir (clean_dir ++ codes "/")

  -- by the tag, or else by a part of the path
  unfoldable pub tagged_files : List HfFile → Bytes → List HfFile
  unfolding files_that contains lower_path
  tagged_files files clean =
      let tagged : List HfFile = elim (tools.tag_pattern clean) [
        | none ↦ []
        | some p ↦ files_that (λ f. p f.path) files
      ] in
      tools.sort (or_else tagged (files_that (λ f. contains (lower_path f) clean) files))

  -- the files for a target that is neither empty nor a wildcard
  unfoldable pub target_files : List HfFile → Bytes → List HfFile
  unfolding first_that files_that tagged_files clean_target in_directory lower_path lower_base
      str_eq to_lower trim
  target_files files target =
      let low = to_lower target in
      or_else (first_that (λ f. str_eq f.path target || str_eq (lower_path f) low) files) (
        or_else (first_that (λ f. str_eq (lower_base f) low) files) (
          or_else (files_that (in_directory (trim b'/' low)) files)
            (tagged_files files (clean_target target))))

  -- matchHFFiles
  unfoldable pub match_hf_files : List HfFile → Bytes → List HfFile
  unfolding default_files target_files files_that str_eq
  match_hf_files files target =
      if str_eq target (codes "all") || str_eq target (codes "*")
      then files_that any_file files
      else if is_empty target
      then default_files files
      else target_files files target

-- The answer of the API; `none` in place of the files is a body that cannot be decoded.
pub data TreeAnswer : Type 0 where
  no_answer : TreeAnswer
  answered : ℕ → Option (List HfFile) → TreeAnswer

-- `no_match` has the paths of the model files that the message lists.
pub data Resolved : Type 0 where
  request_failed bad_status decode_failed : Resolved
  no_match : List Bytes → Resolved
  urls : List Bytes → Resolved

abbrev pub api_url : Bytes → HfSpec → Bytes
api_url endpoint spec =
    endpoint
    ++ (codes "/api/models/"
        ++ (spec.repo ++ (codes "/tree/" ++ (spec.revision ++ codes "?recursive=true"))))

abbrev pub download_url : Bytes → HfSpec → HfFile → Bytes
download_url endpoint spec f =
    endpoint
    ++ (codes "/" ++ (spec.repo ++ (codes "/resolve/" ++ (spec.revision ++ (codes "/" ++ f.path)))))

unfoldable pub is_model_file : HfFile → Bool
unfolding has_suffix lower_path
is_model_file f =
    has_suffix (lower_path f) (codes ".gguf")
    || has_suffix (lower_path f) (codes ".onnx")
    || has_suffix (lower_path f) (codes ".safetensors")

unfoldable pub urls_or_error : Bytes → HfSpec → List HfFile → List HfFile → Resolved
unfolding is_model_file
urls_or_error endpoint spec files [] =
    no_match (map (λ (f : HfFile). f.path) (select is_model_file files))
urls_or_error endpoint spec files (m ∷ ms) = urls (map (download_url endpoint spec) (m ∷ ms))

-- ResolveHFModelFiles: the API is asked with a URL and a token, which is empty where there is none.
unfoldable pub resolve_hf_model_files :
    Tools
    → (Bytes → Bytes → TreeAnswer)
    → (mirror env token env_token hub_token : Bytes) → HfSpec
    → Resolved
unfolding match_hf_files urls_or_error get_hf_endpoint get_hf_token
resolve_hf_model_files tools api mirror env token env_token hub_token spec =
    let endpoint = get_hf_endpoint mirror env in
    elim (api (api_url endpoint spec) (get_hf_token token env_token hub_token)) [
      | no_answer ↦ request_failed
      | answered status body ↦ if not (status == 200) then bad_status else elim body [
        | none ↦ decode_failed
        | some files ↦ urls_or_error endpoint spec files (match_hf_files tools files spec.target)
      ]
    ]
