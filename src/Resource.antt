-- ===== src/Resource.antt =====
-- pkg/oget/protocol.go: which prober and which fetcher serve a resource, and DispatchFetcher.
pub mod Dispatch
use oget.Prelude.{ℕ, ◌≡◌, Bool, true, false, Option, none, some, List, [], ◌∷◌, ◌||◌, if◌then◌else◌}
use oget.Prelude.Text.{Bytes, codes, str_eq, to_lower, has_suffix, contains}
use oget.Url.{Url, Library}

-- The implementations of Prober and of Fetcher.
pub data Protocol : Type 0 where
  torrent ffmpeg ftp magnet http : Protocol

-- isTorrentResource
unfoldable pub is_torrent_resource : Library → Bytes → Bool
unfolding has_suffix to_lower
is_torrent_resource lib resource =
    if has_suffix (to_lower resource) (codes ".torrent") then true else elim (lib.parse resource) [
      | none ↦ false
      | some u ↦ has_suffix (to_lower u.path) (codes ".torrent")
    ]

-- isVideoStreamResource
unfoldable pub is_video_stream_resource : Library → Bytes → Bool
unfolding has_suffix to_lower contains
is_video_stream_resource lib resource =
    let low = to_lower resource in
    if contains low (codes ".m3u8") || contains low (codes ".mpd")
    then true
    else elim (lib.parse resource) [
      | none ↦ false
      | some u ↦
          has_suffix (to_lower u.path) (codes ".m3u8")
          || has_suffix (to_lower u.path) (codes ".mpd")
    ]

unfoldable pub by_scheme : Bytes → Protocol
unfolding str_eq
by_scheme scheme =
    if str_eq scheme (codes "ftp")
    then ftp
    else if str_eq scheme (codes "magnet")
    then magnet
    else http

-- GetProber
unfoldable pub get_prober : Library → Bytes → Protocol
get_prober lib resource =
    if is_torrent_resource lib resource
    then torrent
    else if is_video_stream_resource lib resource
    then ffmpeg
    else elim (lib.parse resource) [ none ↦ http | some u ↦ by_scheme (to_lower u.scheme) ]

-- GetFetcher
unfoldable pub get_fetcher : Library → Bytes → Protocol
get_fetcher lib resource =
    if is_torrent_resource lib resource
    then torrent
    else if is_video_stream_resource lib resource
    then ffmpeg
    else elim (lib.parse resource) [ none ↦ http | some u ↦ by_scheme (to_lower u.scheme) ]

-- DispatchFetcher.fetchers: the fetcher that is kept for each scheme
abbrev pub Cache : Type 0
Cache = List (Bytes × Protocol)

unfoldable pub load : Bytes → Cache → Option Protocol
unfolding str_eq
load k [] = none
load k ((j, v) ∷ m) = if str_eq j k then some v else load k m

-- sync.Map.LoadOrStore
unfoldable pub load_or_store : Bytes → Protocol → Cache → Protocol × Cache
unfolding load
load_or_store k v m = elim (load k m) [ none ↦ (v, (k, v) ∷ m) | some w ↦ (w, m) ]

unfoldable pub scheme_of : Library → Bytes → Bytes
scheme_of lib resource = elim (lib.parse resource) [
  | none ↦ codes "http"
  | some u ↦ to_lower u.scheme
]

-- DispatchFetcher.Fetch: the fetcher that is given the task, and the cache afterwards
unfoldable pub dispatch : Library → Cache → Bytes → Protocol × Cache
dispatch lib cache url =
    if is_torrent_resource lib url
    then (torrent, cache)
    else if is_video_stream_resource lib url
    then (ffmpeg, cache)
    else elim (load (scheme_of lib url) cache) [
      | some f ↦ (f, cache)
      | none ↦ load_or_store (scheme_of lib url) (get_fetcher lib url) cache
    ]
