-- ===== src/Torrent.antt =====
-- The clients of BitTorrent in pkg/oget/protocol.go: the lists of trackers, the identifiers, and the
-- loops of TorrentFetcher.Fetch and MagnetFetcher.Fetch. The torrent library is an argument: its
-- answers, and what it and the clock send to the loops, as a list of events.
pub mod Trackers
pub mod Progress
pub mod Probe
use oget.Prelude.{
  ℕ, suc, ◌+◌, ◌-◌, ◌≡◌, Bool, true, false, not, ◌&&◌, ◌||◌, Option, none, some, List, [], ◌∷◌,
  ◌++◌, ltb, leb, ◌==◌, if◌then◌else◌, map, select, drop, take, concat,
}
use oget.Prelude.Int.{ℤ, pos, pos_part, leb_ℤ, ltb_ℤ}
use oget.Prelude.Text.{Bytes, codes, str_eq, has_prefix, has_suffix, to_lower, is_empty, trim_space}
use oget.Task.{ChunkTask}
use oget.Url.{Url, Library}

-- isLikelyValidTracker; `is_ip` is whether net.ParseIP takes the host name.
unfoldable pub is_likely_valid_tracker : Library → (Url → Bool) → Bytes → Bool
unfolding str_eq to_lower
is_likely_valid_tracker lib is_ip tr = elim (lib.parse tr) [
  | none ↦ false
  | some u ↦
      let scheme = to_lower u.scheme in
      if is_empty u.host
      then false
      else if not (str_eq scheme (codes "http"))
          && not (str_eq scheme (codes "https"))
          && not (str_eq scheme (codes "udp"))
      then false
      else if str_eq scheme (codes "https") && is_ip u
      then false
      else true
]

-- fetchTrackers, where `get` gives the lines of the answer
unfoldable pub fetch_trackers :
    Library → (Url → Bool) → (Bytes → Option (List Bytes)) → Bytes → List Bytes
unfolding is_likely_valid_tracker trim_space
fetch_trackers lib is_ip get tracker_url =
    if is_empty tracker_url then [] else elim (get tracker_url) [
      | none ↦ []
      | some lines ↦
          select (λ l. not (is_empty l) && is_likely_valid_tracker lib is_ip l)
            (map trim_space lines)
    ]

-- whether a tracker is in the map, which has the keys of the list
unfoldable pub known : Bytes → List Bytes → Bool
unfolding str_eq
known t [] = false
known t (x ∷ xs) = str_eq t x || known t xs

-- the inner loop: the new ones of the trackers are appended
unfoldable pub add_unique : List Bytes → List Bytes → List Bytes
unfolding known
add_unique all [] = all
add_unique all (t ∷ ts) = add_unique (if known t all then all else all ++ t ∷ []) ts

unfoldable pub collect : (Bytes → List Bytes) → List Bytes → List Bytes → List Bytes
unfolding add_unique
collect fetch all [] = all
collect fetch all (u ∷ us) = collect fetch (add_unique all (fetch u)) us

-- getTrackers: what it returns, and cachedTrackers behind it; `none` where trackersOnce has not run
unfoldable pub get_trackers :
    (Bytes → List Bytes) → List Bytes → Option (List Bytes) → List Bytes × Option (List Bytes)
unfolding collect
get_trackers fetch urls none = (collect fetch [] urls, some (collect fetch [] urls))
get_trackers fetch urls (some cached) = (cached, some cached)

-- the trackers that are added to a torrent
abbrev pub first_trackers : List Bytes → List Bytes
first_trackers trackers = take 200 trackers

-- magnetIDFromURI; `fingerprint` is the hexadecimal form of the first 20 bytes of the SHA-256 sum.
unfoldable pub magnet_id_from_uri : Library → (Bytes → Bytes) → Bytes → Bytes
unfolding has_prefix to_lower
magnet_id_from_uri lib fingerprint uri = elim (lib.parse uri) [
  | none ↦ fingerprint uri
  | some u ↦
      let xt = u.query (codes "xt") in
      if has_prefix xt (codes "urn:btih:") then to_lower (drop 9 xt) else fingerprint uri
]

-- the name under which fetchTorrentContent saves a remote torrent file
unfoldable pub torrent_file_name : Library → Bytes → Bytes
unfolding str_eq has_suffix to_lower
torrent_file_name lib path =
    let base = lib.base path in
    let name =
      if is_empty base || str_eq base (codes ".") || str_eq base (codes "/")
      then codes "download.torrent"
      else base in
    if not (has_suffix (to_lower name) (codes ".torrent")) then name ++ codes ".torrent" else name

-- AddTorrent and AddURI: whether the torrent was added, or the error says "already added"
pub data Added : Type 0 where
  added already_added refused : Added

pub data TorrentError : Type 0 where
  no_session no_content not_added not_found cancelled stopped : TorrentError

-- Whether there is a torrent behind GetTorrent, AddTorrent and the second GetTorrent.
unfoldable pub find_torrent : Bool → Added → Bool → Option TorrentError
find_torrent true answer again = none
find_torrent false added again = none
find_torrent false already_added again = if again then none else some not_found
find_torrent false refused again = some not_added

-- the size that both probers return: the sum over the files
abbrev pub total_size : List ℕ → ℕ
total_size [] = 0
total_size (n ∷ ns) = n + total_size ns

-- What the select of the loop receives; `tick` has Bytes.Completed, Pieces.Total and Pieces.Have.
pub data Event : Type 0 where
  context_done stop_notice complete_notice : Event
  tick : ℕ → ℕ → ℕ → Event

-- What Fetch leaves: its error, the arguments of the calls of OnProgress and those of
-- OnChunkComplete.
pub record Watched : Type 0 where
  pub failure : Option TorrentError
  pub progress : List ℕ
  pub completed : List (ℕ × Bytes)

abbrev pub completion : ChunkTask → List (ℕ × Bytes)
completion t = if t.on_chunk_complete then (t.chunk_id, []) ∷ [] else []

abbrev pub is_whole : ChunkTask → ℕ → ℕ → ℕ → Bool
is_whole t n total have =
    (ltb_ℤ (pos 0) t.length && leb_ℤ t.length (pos n)) || (ltb 0 total && have == total)

-- The loop, from lastCompleted and the progress that was reported; `none` where the events end
-- before it does.
unfoldable pub watch : ChunkTask → List Event → ℕ → List ℕ → Option Watched
watch t [] last progress = none
watch t (context_done ∷ es) last progress =
    some (record { failure = some cancelled; progress = progress; completed = [] })
watch t (stop_notice ∷ es) last progress =
    some (record { failure = some stopped; progress = progress; completed = [] })
watch t (complete_notice ∷ es) last progress =
    some (record { failure = none; progress = progress; completed = completion t })
watch t (tick n total have ∷ es) last progress =
    let more = t.on_progress && ltb last n in
    let last' = if more then n else last in
    let progress' = if more then progress ++ (n - last) ∷ [] else progress in
    let rest = watch t es last' progress' in
    if is_whole t n total have
    then some (record { failure = none; progress = progress'; completed = completion t })
    else rest

-- The part of Fetch behind Start: the progress of an earlier run is reported first.
unfoldable pub watch_from : ChunkTask → ℕ → List Event → Option Watched
unfolding watch
watch_from t start es = watch t es start (if t.on_progress && ltb 0 start then start ∷ [] else [])

abbrev pub failed_with : TorrentError → Option Watched
failed_with e = some (record { failure = some e; progress = []; completed = [] })

-- TorrentFetcher.Fetch: whether there is a session and a content, what the session answers, and what
-- happens behind Start
unfoldable pub torrent_fetch :
    (session content here : Bool)
    → Added
    → (again : Bool) → ChunkTask
    → ℕ
    → List Event
    → Option Watched
unfolding find_torrent watch_from
torrent_fetch session content here answer again t start es =
    if not session
    then failed_with no_session
    else if not content
    then failed_with no_content
    else elim (find_torrent here answer again) [
      | some e ↦ failed_with e
      | none ↦ watch_from t start es
    ]

-- MagnetFetcher.Fetch: `metadata` is whether the metadata comes before the cancellation
unfoldable pub magnet_fetch :
    (session here : Bool)
    → Added
    → (again metadata : Bool) → ChunkTask
    → ℕ
    → List Event
    → Option Watched
unfolding find_torrent watch_from
magnet_fetch session here answer again metadata t start es =
    if not session then failed_with no_session else elim (find_torrent here answer again) [
      | some e ↦ failed_with e
      | none ↦ if metadata then watch_from t start es else failed_with cancelled
    ]
