-- ===== src/FileName/Shape.antt =====
-- The name of the target is one path element.
use oget.Prelude.{
  ℕ, zero, suc, ◌-◌, ◌≡◌, refl, Bool, false, some, [], ◌∷◌, ◌++◌, ◌||◌, arith, ◌==◌, length, take,
  Bool-cases, Option-cases, inl, inr,
}
use oget.Prelude.Text.{Bytes, codes, str_eq, to_lower, has_suffix, is_empty}
use oget.Url.{Url, Library}
use oget.FileName.{last_token, as_mp4, strip_suffix, path_name, without, parse_file_name}

abbrev pub has_slash : Bytes → Bool
has_slash [] = false
has_slash (c ∷ s) = c == b'/' || has_slash s

has_slash-append : (a b : Bytes) → has_slash (a ++ b) ≡ (has_slash a || has_slash b)
has_slash-append [] b = refl
has_slash-append (c ∷ a) b = ground (arith, has_slash-append a b)

has_slash-take : (n : ℕ) (s : Bytes) → has_slash s ≡ false → has_slash (take n s) ≡ false
has_slash-take zero s h = ground arith
has_slash-take (suc n) [] h = refl
has_slash-take (suc n) (c ∷ s) h = ground (arith, has_slash-take n s)

has_slash-last_token :
    (s cur : Bytes) → has_slash cur ≡ false → has_slash (last_token s cur) ≡ false
unfolding last_token
has_slash-last_token [] cur h = h
has_slash-last_token (c ∷ s) cur h = elim (Bool-cases (c == b'/')) [
  | inl e ↦ rw e (has_slash-last_token s [] refl)
  | inr e ↦
      rw e (has_slash-last_token s (cur ++ c ∷ []) (rw (has_slash-append cur (c ∷ []), h, e) refl))
]

has_slash-as_mp4 : (s : Bytes) → has_slash s ≡ false → has_slash (as_mp4 s) ≡ false
unfolding as_mp4
has_slash-as_mp4 s h = elim (Bool-cases (has_suffix (to_lower s) (codes ".mp4"))) [
  | inl e ↦ rw e h
  | inr e ↦ rw (e, has_slash-append s (codes ".mp4"), h) refl
]

has_slash-strip_suffix : (s : Bytes) → has_slash s ≡ false → has_slash (strip_suffix s) ≡ false
unfolding strip_suffix
has_slash-strip_suffix s h = elim (Bool-cases (has_suffix (to_lower s) (codes ".torrent"))) [
  | inl e ↦ rw e (has_slash-take (length s - 8) s h)
  | inr e ↦ elim (Bool-cases (has_suffix (to_lower s) (codes ".m3u8"))) [
    | inl e' ↦ rw (e, e') (has_slash-as_mp4 (without 5 s) (has_slash-take (length s - 5) s h))
    | inr e' ↦ elim (Bool-cases (has_suffix (to_lower s) (codes ".mpd"))) [
      | inl d ↦ rw (e, e', d) (has_slash-as_mp4 (without 4 s) (has_slash-take (length s - 4) s h))
      | inr d ↦ rw (e, e', d) h
    ]
  ]
]

has_slash-path_name : (path : Bytes) → has_slash (path_name path) ≡ false
unfolding path_name
has_slash-path_name path =
    let last = has_slash-last_token path [] refl in
    elim (Bool-cases (is_empty path || str_eq path (codes "/"))) [
      | inl e ↦ rw e refl
      | inr e ↦ elim (Bool-cases (is_empty (last_token path []))) [
        | inl n ↦ rw (e, n) (has_slash-strip_suffix (codes "index.html") refl)
        | inr n ↦ rw (e, n) (has_slash-strip_suffix (last_token path []) last)
      ]
    ]

-- The name that parseFileName gives to a resource that is not a magnet link has no slash.
pub has_slash-parse_file_name :
    (lib : Library) (uri : Bytes)
    → ((u : Url) → lib.parse uri ≡ some u → str_eq (to_lower u.scheme) (codes "magnet") ≡ false)
    → has_slash (parse_file_name lib uri) ≡ false
unfolding parse_file_name
has_slash-parse_file_name lib uri h = elim (Option-cases (lib.parse uri)) [
  | inl e ↦
      rw (e, parse_file_name)
        (has_slash-strip_suffix (last_token uri []) (has_slash-last_token uri [] refl))
  | inr (u, e) ↦ rw (e, parse_file_name) (rw (h u e) (has_slash-path_name u.path))
]
