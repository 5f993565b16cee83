-- ===== src/Hls/Descent.antt =====
-- What ParseM3U8Segments returns, and when it does not.
use oget.Prelude.{ℕ, zero, suc, ◌<◌, ◌≤◌, ◌≡◌, refl, Option, none, some, List, []}
use oget.Prelude.Int.{ℤ, pos}
use oget.Prelude.Text.{Bytes}
use oget.Hls.Best.{IsBest}
use oget.Hls.Master.{offers, resolved}
use oget.Hls.{
  chunks_or_error, media, split_lines, Tools, Answer, bad_request, no_response, responded, HlsError,
  request_failed, fetch_failed, read_failed, Playlist, failed, Step, descend, finish, open_playlist,
  parse_m3u8_segments,
}

module _ {U : Type 0} (lib : Tools U) (client : Bytes → Answer) where
  -- the variants that a playlist names
  abbrev pub variants : Bytes → Bytes → List (ℤ × Bytes)
  variants url content = resolved (offers lib url none (split_lines content))

  -- Where a playlist leads: to an error of the request, of the status or of the read, to the chunks
  -- of a playlist without a variant, or to where the best variant of a master playlist leads.
  pub data Leads : Bytes → Playlist → Type 0 where
    not_asked : (url : Bytes) → client url ≡ bad_request → Leads url (failed request_failed)
    not_answered : (url : Bytes) → client url ≡ no_response → Leads url (failed fetch_failed)
    refused :
        (url : Bytes) (status : ℕ) (body : Option Bytes)
        → client url ≡ responded status body
        → 400 ≤ status
        → Leads url (failed (HlsError.bad_status status))
    cut_off :
        (url : Bytes) (status : ℕ)
        → client url ≡ responded status none
        → status < 400
        → Leads url (failed read_failed)
    ends :
        (url : Bytes) (status : ℕ) (content : Bytes)
        → client url ≡ responded status (some content)
        → status < 400
        → variants url content ≡ []
        → Leads url (chunks_or_error (media lib url (split_lines content) 0 (pos 0)))
    goes_on :
        (url : Bytes) (status : ℕ) (content next : Bytes) (bw : ℤ) (r : Playlist)
        → client url ≡ responded status (some content)
        → status < 400
        → IsBest (variants url content) bw next
        → Leads next r
        → Leads url r

  -- where one playlist leads in a call that makes no further one, or the playlist that it goes on to
  abbrev After : Bytes → Step → Type 0
  After url (finish r) = Leads url r
  After url (descend next) = (r : Playlist) → Leads next r → Leads url r

module _ {U : Type 0} (lib : Tools U) (client : Bytes → Answer) where
  -- A playlist whose best variant is the playlist itself makes ParseM3U8Segments call itself
  -- without end.
  pub parse_m3u8_segments_circles :
      (url : Bytes)
      → open_playlist lib client url ≡ descend url
      → (k : ℕ) → parse_m3u8_segments lib client k url ≡ none
  unfolding parse_m3u8_segments
  parse_m3u8_segments_circles url e zero = refl
  parse_m3u8_segments_circles url e (suc k) =
      rw (e, parse_m3u8_segments) (parse_m3u8_segments_circles url e k)
