-- ===== src/Torrent/Trackers.antt =====
-- The list of trackers that getTrackers collects.
use oget.Prelude.{◌≡◌, false, List, [], ◌∷◌}
use oget.Prelude.Text.{Bytes}
use oget.Url.{Url}
use oget.Torrent.{known}

-- no text stands in the list twice
abbrev pub Distinct : List Bytes → Type 0
Distinct [] = Unit
Distinct (x ∷ xs) = (known x xs ≡ false) × Distinct xs
