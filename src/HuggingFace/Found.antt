-- ===== src/HuggingFace/Found.antt =====
-- When a target finds a file.

use mathlib.Core.List.{Memᴰ}
use oget.Prelude.{◌≡◌, refl, Bool, true, ◌&&◌, ◌||◌, List, [], ◌∷◌, inl, inr, Bool-cases}
use oget.Prelude.Text.{Bytes, codes, str_eq, to_lower, trim, contains, is_empty}
use oget.HuggingFace.Files.{
  HfFile, Tools, is_file, lower_path, lower_base, in_directory, first_that, files_that, or_else,
  with_data, default_files, target_files, tagged_files, clean_target, match_hf_files,
}
use oget.Prelude.Members.{select-Memᴰ}
use oget.HuggingFace.Matches.{SortKeeps}

abbrev HasFile : List HfFile → Type 0
HasFile fs = (f : HfFile) × Memᴰ f fs

or_else-HasFile : (xs ys : List HfFile) → HasFile ys → HasFile (or_else xs ys)
or_else-HasFile [] ys h = h
or_else-HasFile (x ∷ xs) ys h = (x, Memᴰ.head refl)

with_data-HasFile : (ns ds os : List HfFile) → HasFile os → HasFile (with_data ns ds os)
with_data-HasFile [] ds os h = h
with_data-HasFile (n ∷ ns) ds os h = (n, Memᴰ.head refl)

module _ (tools : Tools) (keeps : SortKeeps tools) (files : List HfFile) (f : HfFile)
    (here : Memᴰ f files) (a_file : is_file f ≡ true) where
  files_that-HasFile : (p : HfFile → Bool) → p f ≡ true → HasFile (files_that p files)
  unfolding files_that
  files_that-HasFile p h =
      (f, select-Memᴰ (λ g. is_file g && p g) f files here (rw (a_file, h) refl))

  default_files-HasFile : HasFile (default_files tools files)
  unfolding default_files
  default_files-HasFile =
      or_else-HasFile _ _
        (with_data-HasFile _ _ _ (or_else-HasFile _ _ (files_that-HasFile _ refl)))

  tagged_files-HasFile :
      (clean : Bytes)
      → contains (lower_path f) clean ≡ true
      → HasFile (tagged_files tools files clean)
  unfolding tagged_files
  tagged_files-HasFile clean h =
      let (g, there) =
        or_else-HasFile _ _ (files_that-HasFile (λ g. contains (lower_path g) clean) h) in
      (g, (keeps _ g).1 there)

  target_files-HasFile :
      (target : Bytes)
      → contains (lower_path f) (clean_target tools target) ≡ true
      → HasFile (target_files tools files target)
  unfolding target_files
  target_files-HasFile target h =
      or_else-HasFile
        (first_that (λ g. str_eq g.path target || str_eq (lower_path g) (to_lower target)) files) _
        (or_else-HasFile (first_that (λ g. str_eq (lower_base tools g) (to_lower target)) files) _ (
          or_else-HasFile (files_that (in_directory tools (trim b'/' (to_lower target))) files) _
            (tagged_files-HasFile (clean_target tools target) h)))

  -- If a file of the tree has the target in its path, without regard to case and to a last `.gguf` of
  -- the target, then the target finds a file, whatever rule takes it: so ResolveHFModelFiles reports
  -- no missing match. Sorting keeps the files.
  pub match_hf_files_finds :
      (target : Bytes)
      → contains (lower_path f) (clean_target tools target) ≡ true
      → (g : HfFile) × Memᴰ g (match_hf_files tools files target)
  unfolding match_hf_files
  match_hf_files_finds target h =
      elim (Bool-cases (str_eq target (codes "all") || str_eq target (codes "*"))) [
        | inl all ↦ rw all (files_that-HasFile _ refl)
        | inr e ↦ elim (Bool-cases (is_empty target)) [
          | inl none_given ↦ rw (e, none_given) default_files-HasFile
          | inr given ↦ rw (e, given) (target_files-HasFile target h)
        ]
      ]
