-- ===== src/FileName.antt =====
-- parseFileName of pkg/oget/util.go, and the name of the state file (pkg/oget/requester.go).
pub mod Shape
use oget.Prelude.{
  ℕ, zero, suc, ◌+◌, ◌-◌, ◌≡◌, Bool, true, false, Option, none, some, List, [], ◌∷◌, ◌++◌, ◌&&◌,
  ◌||◌, not, ◌==◌, if◌then◌else◌, length, take, drop,
}
use oget.Prelude.Text.{Bytes, codes, str_eq, to_lower, has_prefix, has_suffix, is_empty}
use oget.Url.{Url, Library}

-- tokens[len(tokens)-1] of strings.Split(s, "/"): what follows the last slash. `cur` is the token
-- that is being read.
last_token : Bytes → Bytes → Bytes
last_token [] cur = cur
last_token (c ∷ s) cur = last_token s (if c == b'/' then [] else cur ++ c ∷ [])

-- s[:len(s)-n]
abbrev without : ℕ → Bytes → Bytes
without n s = take (length s - n) s

as_mp4 : Bytes → Bytes
as_mp4 stem = if has_suffix (to_lower stem) (codes ".mp4") then stem else stem ++ codes ".mp4"

-- the suffixes of torrents and streams, which both halves of the function treat alike
unfoldable pub strip_suffix : Bytes → Bytes
unfolding as_mp4 has_suffix to_lower
strip_suffix name =
    let low = to_lower name in
    if has_suffix low (codes ".torrent")
    then without 8 name
    else if has_suffix low (codes ".m3u8")
    then as_mp4 (without 5 name)
    else if has_suffix low (codes ".mpd")
    then as_mp4 (without 4 name)
    else name

-- the names of magnet links: the display name, else the info hash
magnet_name : Url → Bytes
magnet_name u =
    let dn = u.query (codes "dn") in
    let xt = u.query (codes "xt") in
    if not (is_empty dn)
    then dn
    else if has_prefix xt (codes "urn:btih:")
    then drop 9 xt
    else codes "magnet_download"

path_name : Bytes → Bytes
unfolding last_token strip_suffix
path_name path =
    let name = last_token path [] in
    if is_empty path || str_eq path (codes "/")
    then codes "index.html"
    else strip_suffix (if is_empty name then codes "index.html" else name)

-- parseFileName
unfoldable pub parse_file_name : Library → Bytes → Bytes
unfolding magnet_name path_name str_eq has_prefix
parse_file_name lib uri = elim (lib.parse uri) [
  | none ↦ strip_suffix (last_token uri [])
  | some u ↦ if str_eq (to_lower u.scheme) (codes "magnet") then magnet_name u else path_name u.path
]

-- the name under the output directory, as PrepareTasks and Cleanup compute it
unfoldable pub target_name : Library → Bytes → Bytes → Bytes
unfolding parse_file_name
target_name lib output_dir resource =
    let name = parse_file_name lib resource in
    if not (is_empty output_dir) && not (str_eq output_dir (codes "."))
    then lib.join output_dir name
    else name

-- getStateFileName
unfoldable pub get_state_file_name : Library → Bytes → Bytes
get_state_file_name lib name = lib.join (lib.dir name) (codes "." ++ lib.base name ++ codes ".oget")
