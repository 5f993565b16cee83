-- ===== src/Examples/Playlists.antt =====
-- The theorems about playlists at concrete inputs.

use oget.Prelude.{
  ℕ, ◌<◌, ◌≡◌, refl, ◌⊎◌, true, false, Option, none, some, [], ◌∷◌, ◌==◌, if◌then◌else◌, map,
  length, get_or,
}
use oget.Prelude.Int.{ℤ, pos}
use oget.Prelude.Text.{Bytes, codes, is_empty, has_prefix, index, trim_space}
use oget.Hls.{
  Tools, HlsChunk, Answer, responded, no_response, descend, finish, chunks_or_error, media,
  split_lines, scan, next_uri, is_uri, bandwidth, resolve_absolute_url, read_playlist,
  open_playlist, parse_m3u8_segments,
}
use oget.Hls.Master.{offers, resolved}
use oget.Hls.Best.{IsBest, Names, read_playlist-IsBest}
use oget.Hls.Media.{no_chunk, segment_urls, media_lem}
use oget.Hls.Descent.{parse_m3u8_segments_circles}
use oget.Hls.Quote.{concat_list_injective}

-- every URL is absolute, and a number is the length of its text
abbrev tools : Tools Bytes
tools = record {
  parse = λ s. if is_empty s then none else some s;
  is_abs = λ u. true;
  string = λ u. u;
  resolve_reference = λ b u. u;
  parse_int = λ s. elim s [ [] ↦ pos 0 | c ∷ rest ↦ pos c ];
  parse_seconds = λ s. none;
}

tools-Names : (base : Bytes) → Names tools base
unfolding resolve_absolute_url
tools-Names base target url h = named (trim_space target) h
  where
    named :
        (s : Bytes)
        → (elim (if is_empty s then none else some s) as (λ x. Option Bytes) [
          | none ↦ none
          | some u ↦ some u
        ])
          ≡ some url
        → is_empty url ≡ false
    named [] h = absurd (cc)
    named (c ∷ s) h = let same : c ∷ s ≡ url = cc in rw (← same) refl

-- two variants, of which the second one has the higher bandwidth
abbrev master : Bytes
master = codes "#EXT-X-STREAM-INF:BANDWIDTH=1\na\n#EXT-X-STREAM-INF:BANDWIDTH=2\n\nb\n"

read_playlist-IsBest_example :
    let vs = resolved (offers tools (codes "m") none (split_lines master)) in
    ((vs ≡ [])
      × (read_playlist tools (codes "m") master
          ≡ finish (chunks_or_error (media tools (codes "m") (split_lines master) 0 (pos 0)))))
    ⊎ ((bw : ℤ) × (url : Bytes) × IsBest vs bw url
        × (read_playlist tools (codes "m") master ≡ descend url))
read_playlist-IsBest_example =
    read_playlist-IsBest tools (codes "m") (tools-Names (codes "m")) master

-- The first `BANDWIDTH=` of a tag may be the end of another name: here the number is 1, not 2.
average_first :
    bandwidth tools (codes "#EXT-X-STREAM-INF:AVERAGE-BANDWIDTH=1,BANDWIDTH=2") ≡ pos b'1'
unfolding bandwidth index has_prefix
average_first = refl

-- the master playlist at m, and nothing else
abbrev site : Bytes → Answer
site u = elim u [
  | [] ↦ no_response
  | c ∷ rest ↦ if c == b'm' then responded 200 (some master) else no_response
]

parse_m3u8_segments_circles_example :
    parse_m3u8_segments tools
      (λ u. responded 200 (some (codes "#EXT-X-STREAM-INF:\nm\n")))
      50
      (codes "m")
    ≡ none
parse_m3u8_segments_circles_example =
    parse_m3u8_segments_circles tools (λ u. responded 200 (some (codes "#EXT-X-STREAM-INF:\nm\n")))
      (codes "m") leads 50
  where
    leads :
        open_playlist tools
          (λ u. responded 200 (some (codes "#EXT-X-STREAM-INF:\nm\n")))
          (codes "m")
        ≡ descend (codes "m")
    leads =
        unfold open_playlist in
        unfold read_playlist in
        unfold split_lines in
        unfold scan in
        unfold next_uri in
        unfold is_uri in
        unfold bandwidth in
        unfold resolve_absolute_url in
        unfold has_prefix in unfold index in unfold trim_space in refl

concat_list_injective_example : codes "it's" ∷ [] ≡ codes "it's" ∷ []
concat_list_injective_example = concat_list_injective (codes "it's" ∷ []) (codes "it's" ∷ []) refl

media_lem_example :
    let cs =
      media tools
        (codes "m")
        (codes "#EXTINF:4,\r" ∷ codes "a.ts" ∷ [] ∷ codes " b.ts" ∷ [])
        0
        (pos 0) in
    (map (λ (c : HlsChunk). c.url) cs
      ≡ segment_urls tools
          (codes "m")
          (codes "#EXTINF:4,\r" ∷ codes "a.ts" ∷ [] ∷ codes " b.ts" ∷ []))
    × ((i : ℕ) → i < length cs → (get_or cs i no_chunk).seq_id ≡ i)
media_lem_example =
    media_lem tools (codes "m") (codes "#EXTINF:4,\r" ∷ codes "a.ts" ∷ [] ∷ codes " b.ts" ∷ [])
      (pos 0)
