-- ===== src/Examples/Models.antt =====
-- The theorems about the files of a model at concrete inputs.

use mathlib.Core.List.{Memᴰ}
use oget.Prelude.{◌≡◌, ◌≢◌, refl, true, none, some, List, [], ◌∷◌}
use oget.Prelude.Text.{Bytes, codes, str_eq, to_lower, has_prefix, has_suffix, contains}
use oget.HuggingFace.{HfSpec, get_hf_endpoint, get_hf_token}
use oget.HuggingFace.Files.{
  HfFile, Tools, TreeAnswer, answered, urls, is_file, lower_path, first_that, target_files,
  clean_target, match_hf_files, urls_or_error, resolve_hf_model_files, api_url, download_url,
}
use oget.HuggingFace.Matches.{SortKeeps, resolve_hf_model_files_lem}

abbrev tools : Tools
tools = record { base = λ p. p; dir = λ p. []; tag_pattern = λ t. none; sort = λ fs. fs }

tools-SortKeeps : SortKeeps tools
tools-SortKeeps fs f = (λ m. m, λ m. m)

abbrev weights : HfFile
weights = record { kind = codes "file"; path = codes "Q4.gguf" }

abbrev folder : HfFile
folder = record { kind = codes "directory"; path = codes "onnx" }

abbrev tree : List HfFile
tree = folder ∷ weights ∷ []

abbrev spec : HfSpec
spec = record { repo = codes "o/m"; target = codes "q4.gguf"; revision = codes "main" }

abbrev api : Bytes → Bytes → TreeAnswer
api url token = answered 200 (some tree)

abbrev found : List Bytes
found = codes "https://huggingface.co/o/m/resolve/main/Q4.gguf" ∷ []

resolves : resolve_hf_model_files tools api [] [] [] [] [] spec ≡ urls found
unfolding resolve_hf_model_files get_hf_endpoint match_hf_files target_files first_that is_file
    urls_or_error lower_path str_eq to_lower
resolves = refl

resolve_hf_model_files_lem_example :
    (found ≢ [])
    × ((files : List HfFile) × (api (api_url (get_hf_endpoint [] []) spec) (get_hf_token [] [] [])
          ≡ answered 200 (some files))
        × ((u : Bytes)
            → Memᴰ u found
            → (f : HfFile) × Memᴰ f files
              × (is_file f ≡ true)
              × (u ≡ download_url (get_hf_endpoint [] []) spec f)))
resolve_hf_model_files_lem_example =
    resolve_hf_model_files_lem tools tools-SortKeeps api [] [] [] [] [] spec found resolves

weights_file : is_file weights ≡ true
unfolding is_file str_eq
weights_file = refl

weights_named : contains (lower_path weights) (clean_target tools (codes "Q4")) ≡ true
unfolding contains lower_path clean_target to_lower has_prefix has_suffix
weights_named = refl
