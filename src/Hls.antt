-- ===== src/Hls.antt =====
-- pkg/oget/hls_tools.go: the playlists of HTTP Live Streaming and the list of files for ffmpeg.
-- Package net/url, strconv's numbers and the HTTP client are arguments.
pub mod Bandwidth
pub mod Master
pub mod Best
pub mod Media
pub mod Descent
pub mod Quote
use oget.Prelude.{
  ℕ, zero, suc, ◌+◌, ◌≡◌, Bool, true, false, not, ◌&&◌, ◌||◌, Option, none, some, List, [], ◌∷◌,
  ◌++◌, ◌==◌, leb, if◌then◌else◌, length, drop,
}
use oget.Prelude.Int.{ℤ, pos, ltb_ℤ}
use oget.Prelude.Text.{Bytes, codes, has_prefix, index, is_empty, trim_space}

-- HLSChunk; the duration is in nanoseconds.
pub record HlsChunk : Type 0 where
  pub seq_id : ℕ
  pub url : Bytes
  pub duration : ℤ

-- What ParseM3U8Segments uses of other packages. `U` is the type of parsed URLs.
pub record Tools (U : Type 0) : Type 0 where
  -- url.Parse, `none` where it returns an error
  pub parse : Bytes → Option U
  -- the methods IsAbs, String and ResolveReference
  pub is_abs : U → Bool
  pub string : U → Bytes
  pub resolve_reference : U → U → U
  -- the number that strconv.ParseInt(s, 10, 64) returns, whatever its error
  pub parse_int : Bytes → ℤ
  -- strconv.ParseFloat as seconds, converted to a time.Duration; `none` where it returns an error
  pub parse_seconds : Bytes → Option ℤ

-- strings.Split(s, "\n")
unfoldable pub split_lines : Bytes → List Bytes
split_lines [] = [] ∷ []
split_lines (c ∷ s) =
    let rest = split_lines s in
    if c == 10 then [] ∷ rest else elim rest [ [] ↦ (c ∷ []) ∷ [] | l ∷ ls ↦ (c ∷ l) ∷ ls ]

-- the part of s before the first byte that passes the test
abbrev before_any : (ℕ → Bool) → Bytes → Bytes
before_any p [] = []
before_any p (c ∷ s) = let rest = before_any p s in if p c then [] else c ∷ rest

-- a byte of ", \r\n"
abbrev ends_number : ℕ → Bool
ends_number c = c == b',' || c == b' ' || c == 13 || c == 10

abbrev pub stream_tag : Bytes
stream_tag = codes "#EXT-X-STREAM-INF:"

abbrev bandwidth_key : Bytes
bandwidth_key = codes "BANDWIDTH="

abbrev pub duration_tag : Bytes
duration_tag = codes "#EXTINF:"

module _ {U : Type 0} (lib : Tools U) where
  -- resolveAbsoluteURL
  unfoldable pub resolve_absolute_url : Bytes → Bytes → Option Bytes
  unfolding trim_space
  resolve_absolute_url base target = elim (lib.parse (trim_space target)) [
    | none ↦ none
    | some u ↦ if lib.is_abs u then some (lib.string u) else elim (lib.parse base) [
      | none ↦ none
      | some b ↦ some (lib.string (lib.resolve_reference b u))
    ]
  ]

  -- the bandwidth that a line with the tag of a variant states
  unfoldable pub bandwidth : Bytes → ℤ
  unfolding index
  bandwidth line = elim (index line bandwidth_key) [
    | none ↦ pos 0
    | some i ↦ lib.parse_int (before_any ends_number (drop (i + length bandwidth_key) line))
  ]

-- a line that is neither blank nor a comment or a tag
unfoldable pub is_uri : Bytes → Bool
unfolding has_prefix
is_uri line = not (is_empty line) && not (has_prefix line (codes "#"))

-- The search for the URL of a variant in the lines behind its tag: how many lines it passes over,
-- and the URL.
unfoldable pub next_uri : List Bytes → Option (ℕ × Bytes)
unfolding is_uri trim_space
next_uri [] = none
next_uri (l ∷ ls) =
    let rest = next_uri ls in
    if is_uri (trim_space l)
    then some (0, trim_space l)
    else elim rest [ none ↦ none | some (k, u) ↦ some (suc k, u) ]

-- The variables of the loop that looks for a master playlist.
pub record Scan : Type 0 where
  pub is_master : Bool
  pub variant_urls : List Bytes
  pub max_bandwidth : ℤ
  pub best : Bytes

abbrev pub no_variant : Scan
no_variant = record { is_master = false; variant_urls = []; max_bandwidth = pos 0; best = [] }

-- what a variant with the bandwidth bw does, whose absolute URL is `url`
abbrev pub offer : ℤ → Bytes → Scan → Scan
offer bw url st =
    if ltb_ℤ st.max_bandwidth bw || is_empty st.best
    then record st { variant_urls = st.variant_urls ++ url ∷ []; max_bandwidth = bw; best = url }
    else record st { variant_urls = st.variant_urls ++ url ∷ [] }

abbrev pub offer_if : ℤ → Option Bytes → Scan → Scan
offer_if bw none st = st
offer_if bw (some url) st = offer bw url st

abbrev pub as_master : Scan → Scan
as_master st = record st { is_master = true }

module _ {U : Type 0} (lib : Tools U) (base : Bytes) where
  -- The loop over the lines. The number counts the lines that it jumps over: `i = j` of the source.
  unfoldable pub scan : List Bytes → ℕ → Scan → Scan
  unfolding next_uri bandwidth resolve_absolute_url has_prefix trim_space
  scan [] skip st = st
  scan (l ∷ ls) (suc skip) st = scan ls skip st
  scan (l ∷ ls) zero st =
      let line = trim_space l in
      if has_prefix line stream_tag
      then elim (next_uri ls) [
        | none ↦ scan ls 0 (as_master st)
        | some (k, next) ↦
            scan ls (suc k)
              (offer_if (bandwidth lib line) (resolve_absolute_url lib base next) (as_master st))
      ]
      else scan ls 0 st

  -- the duration that a line with its tag sets
  unfoldable pub duration_of : Bytes → ℤ → ℤ
  unfolding trim_space
  duration_of line current =
      elim (lib.parse_seconds
        (trim_space (before_any (λ c. c == b',') (drop (length duration_tag) line)))) [
          | none ↦ current
          | some d ↦ d
        ]

  -- The loop over the lines of a media playlist, from the number and the duration of the next chunk.
  unfoldable pub media : List Bytes → ℕ → ℤ → List HlsChunk
  unfolding duration_of resolve_absolute_url has_prefix trim_space
  media [] seq_id duration = []
  media (l ∷ ls) seq_id duration =
      let line = trim_space l in
      let rest = media ls seq_id duration in
      let timed = media ls seq_id (duration_of line duration) in
      let next = media ls (suc seq_id) (pos 0) in
      if is_empty line
      then rest
      else if has_prefix line duration_tag
      then timed
      else if has_prefix line (codes "#")
      then rest
      else elim (resolve_absolute_url lib base line) [
        | none ↦ rest
        | some url ↦ record { seq_id = seq_id; url = url; duration = duration } ∷ next
      ]

-- The answer to the GET of a playlist; `none` in place of the body is a failed read.
pub data Answer : Type 0 where
  bad_request no_response : Answer
  responded : ℕ → Option Bytes → Answer

pub data HlsError : Type 0 where
  request_failed fetch_failed read_failed no_segments : HlsError
  bad_status : ℕ → HlsError

pub data Playlist : Type 0 where
  failed : HlsError → Playlist
  segments : List HlsChunk → Playlist

abbrev pub chunks_or_error : List HlsChunk → Playlist
chunks_or_error [] = failed no_segments
chunks_or_error (c ∷ cs) = segments (c ∷ cs)

-- Where a body leads: to the playlist of its best variant, or to a result.
pub data Step : Type 0 where
  descend : Bytes → Step
  finish : Playlist → Step

module _ {U : Type 0} (lib : Tools U) where
  unfoldable pub read_playlist : Bytes → Bytes → Step
  unfolding split_lines scan media
  read_playlist url content =
      let lines = split_lines content in
      let st = scan lib url lines 0 no_variant in
      if st.is_master && not (is_empty st.best)
      then descend st.best
      else finish (chunks_or_error (media lib url lines 0 (pos 0)))

  unfoldable pub open_playlist : (Bytes → Answer) → Bytes → Step
  unfolding read_playlist
  open_playlist client url = elim (client url) [
    | bad_request ↦ finish (failed request_failed)
    | no_response ↦ finish (failed fetch_failed)
    | responded status body ↦
        if leb 400 status then finish (failed (bad_status status)) else elim body [
          | none ↦ finish (failed read_failed)
          | some content ↦ read_playlist url content
        ]
  ]

  -- ParseM3U8Segments, with fuel for its calls of itself
  unfoldable pub parse_m3u8_segments : (Bytes → Answer) → ℕ → Bytes → Option Playlist
  unfolding open_playlist
  parse_m3u8_segments client zero url = none
  parse_m3u8_segments client (suc k) url = elim (open_playlist client url) [
    | descend next ↦ parse_m3u8_segments client k next
    | finish r ↦ some r
  ]

-- strings.ReplaceAll(path, "'", "'\\''")
unfoldable pub escape : Bytes → Bytes
escape [] = []
escape (c ∷ s) = let rest = escape s in if c == 39 then 39 ∷ 92 ∷ 39 ∷ 39 ∷ rest else c ∷ rest

-- What RemuxConcat writes for the files, whose paths filepath.Abs has made absolute.
unfoldable pub concat_list : List Bytes → Bytes
unfolding escape
concat_list [] = []
concat_list (p ∷ ps) = codes "file '" ++ (escape p ++ (39 ∷ 10 ∷ concat_list ps))
