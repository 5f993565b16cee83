-- ===== src/HuggingFace.antt =====
-- pkg/oget/hf.go: which resources are Hugging Face models, and what such a resource names. The
-- variables of the environment are arguments.
pub mod Endpoint
pub mod Files
pub mod Matches
pub mod Found
use oget.Prelude.{
  ℕ, suc, ◌+◌, Bool, true, false, not, ◌&&◌, ◌||◌, Option, none, some, List, [], ◌∷◌, ◌++◌, ◌==◌,
  if◌then◌else◌, length, take, drop,
}
use oget.Prelude.Text.{
  Bytes, codes, to_lower, has_prefix, contains, index, is_empty, split_once, trim, trim_right,
  trim_space,
}

-- HFSpec
pub record HfSpec : Type 0 where
  pub repo : Bytes
  pub target : Bytes
  pub revision : Bytes

-- IsHFResource
unfoldable pub is_hf_resource : Bytes → Bool
unfolding has_prefix to_lower trim_space
is_hf_resource resource =
    let low = to_lower (trim_space resource) in
    if has_prefix low (codes "hf:") || has_prefix low (codes "hf://")
    then true
    else if has_prefix low (codes "https://huggingface.co/")
        || has_prefix low (codes "http://huggingface.co/")
    then true
    else if has_prefix low (codes "https://hf-mirror.com/")
        || has_prefix low (codes "http://hf-mirror.com/")
    then true
    else if has_prefix low (codes "hf.co/")
    then true
    else false

-- the prefixes of ParseHFSpec, in the order in which it tries them
abbrev hf_prefixes : List Bytes
hf_prefixes =
    codes "hf://"
    ∷ codes "hf:"
    ∷ codes "https://huggingface.co/"
    ∷ codes "http://huggingface.co/"
    ∷ codes "https://hf-mirror.com/"
    ∷ codes "http://hf-mirror.com/"
    ∷ codes "hf.co/"
    ∷ []

-- `raw` without the first of the prefixes that it has, whatever its case
without_prefix : List Bytes → Bytes → Bytes
unfolding has_prefix to_lower
without_prefix [] raw = raw
without_prefix (p ∷ ps) raw =
    let rest = without_prefix ps raw in
    if has_prefix (to_lower raw) p then drop (length p) raw else rest

-- strings.TrimPrefix
abbrev trim_prefix : Bytes → Bytes → Bytes
trim_prefix s p = if has_prefix s p then drop (length p) s else s

abbrev or_empty : Option Bytes → Bytes
or_empty none = []
or_empty (some s) = s

-- the form repo/resolve/revision/file
parse_resolve : Bytes → HfSpec
unfolding split_once trim
parse_resolve raw =
    let parts = split_once raw (codes "/resolve/") in
    let sub = split_once (or_empty parts.1) (codes "/") in
    record { repo = trim b'/' parts.0; target = or_empty sub.1; revision = sub.0 }

-- the forms owner/model, owner/model/file and owner/model:target, of which `target` is the last part
parse_model : Bytes → Bytes → Option HfSpec
unfolding split_once trim
parse_model raw target =
    let owner = split_once (trim b'/' raw) (codes "/") in
    elim owner.1 [
      | none ↦ none
      | some rest ↦
          let model = split_once rest (codes "/") in
          some (record {
            repo = owner.0 ++ (codes "/" ++ model.0);
            target = elim model.1 [
              | none ↦ target
              | some file ↦ if is_empty target then file else target
            ];
            revision = codes "main";
          })
    ]

-- ParseHFSpec
unfoldable pub parse_hf_spec : Bytes → Option HfSpec
unfolding without_prefix parse_resolve parse_model trim_space contains index has_prefix
parse_hf_spec resource =
    let raw = trim_prefix (without_prefix hf_prefixes (trim_space resource)) (codes "/") in
    if contains raw (codes "/resolve/")
    then some (parse_resolve raw)
    else elim (index raw (codes ":")) [
      | none ↦ parse_model raw []
      | some i ↦ parse_model (take i raw) (drop (suc i) raw)
    ]

-- an endpoint without its last slashes, and with a scheme
unfoldable pub as_endpoint : Bytes → Bytes
unfolding has_prefix trim_right
as_endpoint s =
    let endpoint = trim_right b'/' s in
    if not (has_prefix endpoint (codes "http://")) && not (has_prefix endpoint (codes "https://"))
    then codes "https://" ++ endpoint
    else endpoint

-- GetHFEndpoint: `mirror` is HFMirror of the configuration, empty where there is none, and `env` the
-- variable HF_ENDPOINT
unfoldable pub get_hf_endpoint : Bytes → Bytes → Bytes
unfolding as_endpoint
get_hf_endpoint mirror env =
    if not (is_empty mirror)
    then as_endpoint mirror
    else if not (is_empty env)
    then as_endpoint env
    else codes "https://huggingface.co"

-- GetHFToken: HFToken of the configuration, HF_TOKEN and HUGGING_FACE_HUB_TOKEN
unfoldable pub get_hf_token : Bytes → Bytes → Bytes → Bytes
get_hf_token token env hub_env =
    if not (is_empty token) then token else if not (is_empty env) then env else hub_env
