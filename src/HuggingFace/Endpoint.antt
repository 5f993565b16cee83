-- ===== src/HuggingFace/Endpoint.antt =====
-- What the endpoint of Hugging Face looks like.
use oget.Prelude.{◌≡◌, refl, Bool, true, ◌||◌, Bool-cases, inl, inr}
use oget.Prelude.Text.{Bytes, codes, has_prefix, is_empty, trim_right}
use oget.HuggingFace.{as_endpoint, get_hf_endpoint}

abbrev pub has_scheme : Bytes → Bool
has_scheme s = has_prefix s (codes "http://") || has_prefix s (codes "https://")

has_scheme-as_endpoint : (s : Bytes) → has_scheme (as_endpoint s) ≡ true
unfolding as_endpoint
has_scheme-as_endpoint s = elim (Bool-cases (has_prefix (trim_right b'/' s) (codes "http://"))) [
  | inl h ↦ rw h (rw h refl)
  | inr h ↦ elim (Bool-cases (has_prefix (trim_right b'/' s) (codes "https://"))) [
    | inl k ↦ rw (h, k) (rw (h, k) refl)
    | inr k ↦ rw (h, k) (unfold has_prefix in refl)
  ]
]

-- Whatever mirror is configured and whatever the environment holds, the endpoint has a scheme: it
-- begins with `http://` or `https://`.
pub has_scheme-get_hf_endpoint :
    (mirror env : Bytes) → has_scheme (get_hf_endpoint mirror env) ≡ true
unfolding get_hf_endpoint
has_scheme-get_hf_endpoint mirror env = elim (Bool-cases (is_empty mirror)) [
  | inr m ↦ rw m (has_scheme-as_endpoint mirror)
  | inl m ↦ elim (Bool-cases (is_empty env)) [
    | inr e ↦ rw (m, e) (has_scheme-as_endpoint env)
    | inl e ↦ rw (m, e) (unfold has_prefix in refl)
  ]
]
