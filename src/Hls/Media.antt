-- ===== src/Hls/Media.antt =====
-- The segments of a media playlist, and their numbers.
use oget.Prelude.{
  ℕ, zero, suc, ◌+◌, ◌<◌, ◌≡◌, refl, true, none, some, List, [], ◌∷◌, arith, if◌then◌else◌, length,
  get_or, inl, inr, Bool-cases, Option-cases, ap, map,
}
use oget.Prelude.Int.{ℤ, pos}
use oget.Prelude.Text.{Bytes, codes, has_prefix, trim_space, is_empty}
use oget.Hls.{Tools, HlsChunk, duration_tag, resolve_absolute_url, is_uri, duration_of, media}

abbrev pub no_chunk : HlsChunk
no_chunk = record { seq_id = 0; url = []; duration = pos 0 }

-- What a tag with a duration is: it begins with `#`, as does every tag and comment.
tag-comment :
    (line : Bytes) → has_prefix line duration_tag ≡ true → has_prefix line (codes "#") ≡ true
unfolding has_prefix
tag-comment [] h = cc
tag-comment (c ∷ line) h = ground arith

module _ {U : Type 0} (lib : Tools U) (base : Bytes) where
  -- the URLs of the lines that are neither blank nor tags nor comments, as far as they can be resolved
  unfoldable pub segment_urls : List Bytes → List Bytes
  segment_urls [] = []
  segment_urls (l ∷ ls) =
      let rest = segment_urls ls in
      if is_uri (trim_space l)
      then elim (resolve_absolute_url lib base (trim_space l)) [
        | none ↦ rest
        | some url ↦ url ∷ rest
      ]
      else rest

  map-url-media :
      (ls : List Bytes) (n : ℕ) (d : ℤ)
      → map (λ (c : HlsChunk). c.url) (media lib base ls n d) ≡ segment_urls ls
  unfolding media segment_urls is_uri
  map-url-media [] n d = refl
  map-url-media (l ∷ ls) n d =
      let line = trim_space l in
      elim (Bool-cases (is_empty line)) [
        | inl e ↦ rw e (map-url-media ls n d)
        | inr e ↦ elim (Bool-cases (has_prefix line (codes "#"))) [
          | inl c ↦ elim (Bool-cases (has_prefix line duration_tag)) [
            | inl t ↦ rw (e, t, c) (map-url-media ls n (duration_of lib base line d))
            | inr t ↦ rw (e, t, c) (map-url-media ls n d)
          ]
          | inr c ↦ elim (Bool-cases (has_prefix line duration_tag)) [
            | inl t ↦ absurd (cc (c, tag-comment line t))
            | inr t ↦ elim (Option-cases (resolve_absolute_url lib base line)) [
              | inl r ↦ rw (e, t, c, r) (map-url-media ls n d)
              | inr (url, r) ↦
                  rw (e, t, c, r) (ap (λ us. url ∷ us) (map-url-media ls (suc n) (pos 0)))
            ]
          ]
        ]
      ]

  Numbered : ℕ → List HlsChunk → Type 0
  Numbered n cs = (i : ℕ) → i < length cs → (get_or cs i no_chunk).seq_id ≡ n + i

  Numbered-cons :
      (n : ℕ) (url : Bytes) (d : ℤ) (cs : List HlsChunk)
      → Numbered (suc n) cs
      → Numbered n (record { seq_id = n; url = url; duration = d } ∷ cs)
  unfolding Numbered
  Numbered-cons n url d cs h zero lt = omega arith
  Numbered-cons n url d cs h (suc i) lt = omega (arith, h i (omega arith))

  media-Numbered : (ls : List Bytes) (n : ℕ) (d : ℤ) → Numbered n (media lib base ls n d)
  unfolding media
  media-Numbered [] n d = unfold Numbered in λ i lt. absurd (omega arith)
  media-Numbered (l ∷ ls) n d =
      let line = trim_space l in
      elim (Bool-cases (is_empty line)) [
        | inl e ↦ rw e (media-Numbered ls n d)
        | inr e ↦ elim (Bool-cases (has_prefix line duration_tag)) [
          | inl t ↦ rw (e, t) (media-Numbered ls n (duration_of lib base line d))
          | inr t ↦ elim (Bool-cases (has_prefix line (codes "#"))) [
            | inl c ↦ rw (e, t, c) (media-Numbered ls n d)
            | inr c ↦ elim (Option-cases (resolve_absolute_url lib base line)) [
              | inl r ↦ rw (e, t, c, r) (media-Numbered ls n d)
              | inr (url, r) ↦
                  rw (e, t, c, r)
                    (Numbered-cons n url d (media lib base ls (suc n) (pos 0))
                      (media-Numbered ls (suc n) (pos 0)))
            ]
          ]
        ]
      ]

  -- The chunks of a media playlist are the lines that are neither blank nor begin with `#`, in their
  -- order, each with its URL; lines whose URL cannot be resolved are left out. The chunks are
  -- numbered 0, 1, 2 and so on without a gap.
  pub media_lem :
      (ls : List Bytes) (d : ℤ)
      → let cs = media lib base ls 0 d in
        (map (λ (c : HlsChunk). c.url) cs ≡ segment_urls ls)
        × ((i : ℕ) → i < length cs → (get_or cs i no_chunk).seq_id ≡ i)
  unfolding Numbered
  media_lem ls d = (map-url-media ls 0 d, λ i lt. omega (arith, media-Numbered ls 0 d i lt))
