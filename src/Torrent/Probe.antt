-- ===== src/Torrent/Probe.antt =====
-- The probers of BitTorrent, the session that they share and the batches of addTrackersInBatches.
use oget.Prelude.{
  ℕ, zero, suc, ◌≤◌, ◌≡◌, refl, Bool, false, not, Option, none, some, List, [], ◌∷◌, ◌++◌, arith,
  if◌then◌else◌, length, take, drop, concat, take-append-drop, length-take, length-drop, ap, ◌∙◌,
}
use oget.Prelude.Int.{pos}
use oget.Prelude.Text.{Bytes}
use oget.Requester.{ResourceMetadata}
use oget.Requester.Split.{All}
use oget.Torrent.{Added, TorrentError, no_session, no_content, cancelled, find_torrent, total_size}

-- What a prober returns.
pub data Probed : Type 0 where
  failed : TorrentError → Probed
  no_files timed_out : Probed
  found : ResourceMetadata → Probed

-- the size of a torrent whose files are known; `none` where Files returns an error
abbrev by_files : Option (List ℕ) → Probed
by_files none = no_files
by_files (some sizes) =
    found (record { size = pos (total_size sizes); etag = []; last_modified = [] })

-- TorrentProber.Probe: whether there is a content and a session, and what the session answers
unfoldable pub torrent_probe :
    (content session here : Bool) → Added → (again : Bool) → Option (List ℕ) → Probed
unfolding find_torrent
torrent_probe content session here answer again files =
    if not content
    then failed no_content
    else if not session
    then failed no_session
    else elim (find_torrent here answer again) [ some e ↦ failed e | none ↦ by_files files ]

-- What the select of MagnetProber.Probe receives.
pub data Event : Type 0 where
  context_done metadata_notice tick timeout : Event

-- The loop; `none` where the events end before it does.
unfoldable pub wait_metadata : List Event → Option (List ℕ) → Option Probed
wait_metadata [] files = none
wait_metadata (context_done ∷ es) files = some (failed cancelled)
wait_metadata (metadata_notice ∷ es) files = some (by_files files)
wait_metadata (tick ∷ es) files = wait_metadata es files
wait_metadata (timeout ∷ es) files = some timed_out

-- MagnetProber.Probe
unfoldable pub magnet_probe :
    (session here : Bool) → Added → (again : Bool) → List Event → Option (List ℕ) → Option Probed
unfolding find_torrent wait_metadata
magnet_probe session here answer again es files =
    if not session then some (failed no_session) else elim (find_torrent here answer again) [
      | some e ↦ some (failed e)
      | none ↦ wait_metadata es files
    ]

-- getRainSession: whether it returns a session and whether it returns an error, and rainSession
-- behind it; `none` where rainSessionOnce has not run
unfoldable pub get_rain_session : (created : Bool) → Option Bool → (Bool × Bool) × Option Bool
get_rain_session created none = ((created, not created), some created)
get_rain_session created (some session) = ((session, false), some session)

abbrev pub batch : ℕ
batch = 30

-- The batches of addTrackersInBatches, with the number of the trackers as fuel; how many of them are
-- added depends on when the metadata comes.
unfoldable pub batches : ℕ → List Bytes → List (List Bytes)
batches zero ts = []
batches (suc k) [] = []
batches (suc k) (t ∷ ts) = take batch (t ∷ ts) ∷ batches k (drop batch (t ∷ ts))

-- The batches, one behind the other, are the trackers.
concat-batches : (k : ℕ) (ts : List Bytes) → length ts ≤ k → concat (batches k ts) ≡ ts
unfolding batches
concat-batches zero [] h = refl
concat-batches zero (t ∷ ts) h = absurd (omega arith)
concat-batches (suc k) [] h = refl
concat-batches (suc k) (t ∷ ts) h =
    ap (λ rest. take batch (t ∷ ts) ++ rest)
      (concat-batches k (drop batch (t ∷ ts)) (omega (arith, length-drop batch (t ∷ ts))))
    ∙ take-append-drop batch (t ∷ ts)

All-batches : (k : ℕ) (ts : List Bytes) → All (λ (b : List Bytes). length b ≤ batch) (batches k ts)
unfolding batches
All-batches zero ts = tt
All-batches (suc k) [] = tt
All-batches (suc k) (t ∷ ts) =
    (omega (arith, length-take batch (t ∷ ts)), All-batches k (drop batch (t ∷ ts)))

-- addTrackersInBatches loses no tracker and adds none twice over: the batches, one behind the other,
-- are the trackers, and none of them is larger than thirty.
pub batches_lem :
    (ts : List Bytes)
    → (concat (batches (length ts) ts) ≡ ts)
      × All (λ (b : List Bytes). length b ≤ batch) (batches (length ts) ts)
batches_lem ts = (concat-batches (length ts) ts (omega arith), All-batches (length ts) ts)
