-- ===== src/Fetch/Multi.antt =====
-- MultiFetcher.Fetch of pkg/oget/fetcher.go. What a fetcher changes, the task and the storage, is the
-- state that it is given and leaves; `none` is the absence of an error.
use oget.Prelude.{Option, none, some, List, [], ◌∷◌}

module _ {ℓ κ} {S : Type ℓ} {E : Type κ} where
  -- `last` is the error of the fetcher that was tried last
  unfoldable pub multi_fetch : List (S → Option E × S) → Option E → S → Option E × S
  multi_fetch [] last s = (last, s)
  multi_fetch (f ∷ fs) last s = elim ((f s).0) [
    | none ↦ (none, (f s).1)
    | some e ↦ multi_fetch fs (some e) (f s).1
  ]
