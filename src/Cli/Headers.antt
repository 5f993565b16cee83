-- ===== src/Cli/Headers.antt =====
-- The headers of the command line.
use oget.Prelude.{
  ℕ, ◌+◌, ◌≡◌, ◌≢◌, refl, Option, none, some, List, [], ◌∷◌, ◌++◌, arith, if◌then◌else◌, length,
  take, drop, ap, ◌∙◌,
}
use oget.Prelude.Text.{Bytes, codes, str_eq, str_eq_iff, index, split_once, trim_space, has_prefix}
use oget.Cli.{set_header, header, add_parts, add_header}

-- no colon
abbrev pub NoColon : Bytes → Type 0
NoColon [] = Unit
NoColon (c ∷ s) = (c ≢ b':') × NoColon s

index_colon : (k v : Bytes) → NoColon k → index (k ++ b':' ∷ v) (codes ":") ≡ some (length k)
unfolding index has_prefix
index_colon [] v n = refl
index_colon (c ∷ k) v (other, n) = ground (arith, index_colon k v n)

index_absent : (k : Bytes) → NoColon k → index k (codes ":") ≡ none
unfolding index has_prefix
index_absent [] n = refl
index_absent (c ∷ k) (other, n) = ground (arith, index_absent k n)

take_front : (k v : Bytes) → take (length k) (k ++ v) ≡ k
take_front [] v = refl
take_front (c ∷ k) v = ap (λ s. c ∷ s) (take_front k v)

drop_front : (k v : Bytes) (c : ℕ) → drop (length k + 1) (k ++ c ∷ v) ≡ v
drop_front [] v c = refl
drop_front (x ∷ k) v c = ground (arith, drop_front k v c)

abbrev Parts : Type 0
Parts = Bytes × Option Bytes

split_at_colon :
    (k v : Bytes) → NoColon k → ◌≡◌ {A = Parts} (split_once (k ++ b':' ∷ v) (codes ":")) (k, some v)
unfolding split_once
split_at_colon k v n =
    rw (index_colon k v n, split_once) (cc (take_front k (b':' ∷ v), drop_front k v b':'))

split_absent : (k : Bytes) → NoColon k → ◌≡◌ {A = Parts} (split_once k (codes ":")) (k, none)
unfolding split_once
split_absent k n = rw (index_absent k n, split_once) refl

header-set_header :
    (key other value : Bytes) (hs : List (Bytes × Bytes))
    → header other (set_header key value hs)
      ≡ (if str_eq key other then some value else header other hs)
unfolding header set_header
header-set_header key other value [] = refl
header-set_header key other value ((k, v) ∷ hs) = ground (
  arith,
  str_eq_iff k key,
  str_eq_iff k other,
  str_eq_iff key other,
  header-set_header key other value hs,
)

-- A header argument sets the value behind its first colon, which may have further colons, for the
-- name before it, both without the white space around them; it replaces an earlier value of that
-- name, and the values of all other names stay. An argument without a colon changes nothing.
pub header-add_header :
    (hs : List (Bytes × Bytes)) (k v other : Bytes)
    → NoColon k
    → (header other (add_header hs (k ++ b':' ∷ v))
        ≡ (if str_eq (trim_space k) other then some (trim_space v) else header other hs))
      × (add_header hs k ≡ hs)
unfolding add_header add_parts
header-add_header hs k v other n = (
  ap (λ (p : Parts). header other (add_parts hs p)) (split_at_colon k v n)
      ∙ header-set_header (trim_space k) other (trim_space v) hs,
  ap (λ (p : Parts). add_parts hs p) (split_absent k n),
)
