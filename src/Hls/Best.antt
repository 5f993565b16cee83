-- ===== src/Hls/Best.antt =====
-- The variant that is taken has the highest bandwidth.
use mathlib.Core.List.Memᴰ
use mathlib.Core.List.{Memᴰ}
use oget.Prelude.{
  ◌≡◌, refl, true, false, not, ◌&&◌, Option, none, some, List, [], ◌∷◌, ◌++◌, arith, if◌then◌else◌,
  inl, inr, ◌⊎◌, Bool-cases, Option-cases, sym, ap, subst, append_assoc, append-nil, ◌∙◌,
}
use oget.Prelude.Int.{ℤ, pos, ltb_ℤ, leb_ℤ}
use oget.Prelude.Text.{Bytes, has_prefix, trim_space, is_empty}
use oget.Hls.{
  Tools, Scan, stream_tag, resolve_absolute_url, split_lines, scan, no_variant, offer, as_master,
  media, chunks_or_error, Step, descend, finish, read_playlist,
}
use oget.Hls.Master.{names_uri, offers, resolved, offered, as_master-scan, scan-found}

-- the first of the variants of the list than which none has a higher bandwidth
pub record IsBest (vs : List (ℤ × Bytes)) (bw : ℤ) (url : Bytes) : Type 0 where
  pub before : List (ℤ × Bytes)
  pub after : List (ℤ × Bytes)
  pub split : vs ≡ before ++ (bw, url) ∷ after
  pub lower : (b : ℤ) (u : Bytes) → Memᴰ (b, u) before → ltb_ℤ b bw ≡ true
  pub no_higher : (b : ℤ) (u : Bytes) → Memᴰ (b, u) after → leb_ℤ b bw ≡ true

IsBest-highest :
    (vs : List (ℤ × Bytes)) (bw : ℤ) (url : Bytes)
    → IsBest vs bw url
    → (b : ℤ) (u : Bytes) → Memᴰ (b, u) vs
    → leb_ℤ b bw ≡ true
IsBest-highest vs bw url i b u m =
    elim (Memᴰ.append_cases i.before (subst (λ l. Memᴰ (b, u) l) i.split m)) [
      | inl early ↦ let below = i.lower b u early in ground arith
      | inr later ↦ at_or_after later
    ]
  where
    at_or_after : Memᴰ (b, u) ((bw, url) ∷ i.after) → leb_ℤ b bw ≡ true
    at_or_after (Memᴰ.head e) =
        let same : b ≡ bw = ap (λ (p : ℤ × Bytes). p.0) e in rw same (ground arith)
    at_or_after (Memᴰ.tail t) = i.no_higher b u t

IsBest-unique :
    (before before' after after' : List (ℤ × Bytes)) (bw bw' : ℤ) (url url' : Bytes)
    → before ++ (bw, url) ∷ after ≡ before' ++ (bw', url') ∷ after'
    → ((b : ℤ) (u : Bytes) → Memᴰ (b, u) before → ltb_ℤ b bw ≡ true)
    → ((b : ℤ) (u : Bytes) → Memᴰ (b, u) after → leb_ℤ b bw ≡ true)
    → ((b : ℤ) (u : Bytes) → Memᴰ (b, u) before' → ltb_ℤ b bw' ≡ true)
    → ((b : ℤ) (u : Bytes) → Memᴰ (b, u) after' → leb_ℤ b bw' ≡ true)
    → url ≡ url'
IsBest-unique [] [] after after' bw bw' url url' e l h l' h' = cc
IsBest-unique [] (x ∷ before') after after' bw bw' url url' e l h l' h' =
    let same : (bw, url) ≡ x = cc in
    let rest : after ≡ before' ++ (bw', url') ∷ after' = cc in
    let less = l' bw url (Memᴰ.head same) in
    let more =
      h bw' url'
        (subst (λ l. Memᴰ (bw', url') l) (sym rest) (Memᴰ.append_right before' (Memᴰ.head refl))) in
    absurd (ground (arith, less, more))
IsBest-unique (x ∷ before) [] after after' bw bw' url url' e l h l' h' =
    let same : (bw', url') ≡ x = cc in
    let rest : after' ≡ before ++ (bw, url) ∷ after = cc in
    let less = l bw' url' (Memᴰ.head same) in
    let more =
      h' bw url
        (subst (λ l. Memᴰ (bw, url) l) (sym rest) (Memᴰ.append_right before (Memᴰ.head refl))) in
    absurd (ground (arith, less, more))
IsBest-unique (x ∷ before) (y ∷ before') after after' bw bw' url url' e l h l' h' =
    IsBest-unique before before' after after' bw bw' url url' (cc) (λ b u m. l b u (Memᴰ.tail m)) h
      (λ b u m. l' b u (Memᴰ.tail m)) h'

-- A list has one such variant at most.
pub IsBest-same :
    (vs : List (ℤ × Bytes)) (bw bw' : ℤ) (url url' : Bytes)
    → IsBest vs bw url
    → IsBest vs bw' url'
    → url ≡ url'
IsBest-same vs bw bw' url url' i j =
    IsBest-unique i.before j.before i.after j.after bw bw' url url' (sym i.split ∙ j.split) i.lower
      i.no_higher j.lower j.no_higher

pub not-IsBest-nil : (bw : ℤ) (url : Bytes) → IsBest [] bw url → ⊥
not-IsBest-nil bw url i = nothing i.before i.split
  where
    nothing : (l : List (ℤ × Bytes)) → [] ≡ l ++ (bw, url) ∷ i.after → ⊥
    nothing [] e = cc
    nothing (x ∷ l) e = cc

abbrev Holds : List (ℤ × Bytes) → Scan → Type 0
Holds seen st =
    ((seen ≡ []) × (is_empty st.best ≡ true))
    ⊎ ((is_empty st.best ≡ false) × IsBest seen st.max_bandwidth st.best)

IsBest-alone : (bw : ℤ) (url : Bytes) → IsBest ((bw, url) ∷ []) bw url
IsBest-alone bw url = record {
  before = [];
  after = [];
  split = refl;
  lower = λ b u m. absurd (Memᴰ.not-nil m);
  no_higher = λ b u m. absurd (Memᴰ.not-nil m);
}

IsBest-higher :
    (seen : List (ℤ × Bytes)) (bw : ℤ) (url : Bytes) (bw' : ℤ) (url' : Bytes)
    → IsBest seen bw url
    → ltb_ℤ bw bw' ≡ true
    → IsBest (seen ++ (bw', url') ∷ []) bw' url'
IsBest-higher seen bw url bw' url' i h = record {
  before = seen;
  after = [];
  split = refl;
  lower = λ b u m. let below = IsBest-highest seen bw url i b u m in ground arith;
  no_higher = λ b u m. absurd (Memᴰ.not-nil m);
}

IsBest-lower :
    (seen : List (ℤ × Bytes)) (bw : ℤ) (url : Bytes) (bw' : ℤ) (url' : Bytes)
    → IsBest seen bw url
    → ltb_ℤ bw bw' ≡ false
    → IsBest (seen ++ (bw', url') ∷ []) bw url
IsBest-lower seen bw url bw' url' i h = record {
  before = i.before;
  after = i.after ++ (bw', url') ∷ [];
  split =
      ap (λ (l : List (ℤ × Bytes)). l ++ (bw', url') ∷ []) i.split
      ∙ append_assoc i.before ((bw, url) ∷ i.after) ((bw', url') ∷ []);
  lower = i.lower;
  no_higher = λ b u m. elim (Memᴰ.append_cases i.after m) [
    | inl early ↦ i.no_higher b u early
    | inr now ↦
        let same : b ≡ bw' = ap (λ (p : ℤ × Bytes). p.0) (Memᴰ.eq_of_singleton now) in
        rw same (ground arith)
  ];
}

Holds-offer :
    (seen : List (ℤ × Bytes)) (bw : ℤ) (url : Bytes) (st : Scan)
    → is_empty url ≡ false
    → Holds seen st
    → Holds (seen ++ (bw, url) ∷ []) (offer bw url st)
Holds-offer seen bw url st named (inl (first, e)) = elim (Bool-cases (ltb_ℤ st.max_bandwidth bw)) [
  | inl more ↦ rw (more, first) (inr (named, IsBest-alone bw url))
  | inr less ↦ rw (less, e, first) (inr (named, IsBest-alone bw url))
]
Holds-offer seen bw url st named (inr (e, i)) = elim (Bool-cases (ltb_ℤ st.max_bandwidth bw)) [
  | inl more ↦ rw more (inr (named, IsBest-higher seen st.max_bandwidth st.best bw url i more))
  | inr less ↦ rw (less, e) (inr (e, IsBest-lower seen st.max_bandwidth st.best bw url i less))
]

abbrev AllNamed : List (ℤ × Option Bytes) → Type 0
AllNamed [] = Unit
AllNamed ((bw, none) ∷ xs) = AllNamed xs
AllNamed ((bw, some url) ∷ xs) = (is_empty url ≡ false) × AllNamed xs

Holds-offered :
    (xs : List (ℤ × Option Bytes)) (seen : List (ℤ × Bytes)) (st : Scan)
    → AllNamed xs
    → Holds seen st
    → Holds (seen ++ resolved xs) (offered xs st)
Holds-offered [] seen st all h = subst (λ vs. Holds vs st) (sym (append-nil seen)) h
Holds-offered ((bw, none) ∷ xs) seen st all h = Holds-offered xs seen st all h
Holds-offered ((bw, some url) ∷ xs) seen st (named, all) h =
    subst (λ vs. Holds vs (offered xs (offer bw url st)))
      (append_assoc seen ((bw, url) ∷ []) (resolved xs))
      (Holds-offered xs (seen ++ (bw, url) ∷ []) (offer bw url st) all
        (Holds-offer seen bw url st named h))

-- A reference that resolves does not resolve to the empty text.
abbrev pub Names : {U : Type 0} → Tools U → Bytes → Type 0
Names lib base =
    (target url : Bytes) → resolve_absolute_url lib base target ≡ some url → is_empty url ≡ false

module _ {U : Type 0} (lib : Tools U) (base : Bytes) (names : Names lib base) where
  AllNamed-offers : (waits : Option ℤ) (ls : List Bytes) → AllNamed (offers lib base waits ls)
  unfolding offers
  AllNamed-offers waits [] = tt
  AllNamed-offers none (l ∷ ls) = elim (Bool-cases (has_prefix (trim_space l) stream_tag)) [
    | inl t ↦ rw t (AllNamed-offers _ ls)
    | inr t ↦ rw t (AllNamed-offers none ls)
  ]
  AllNamed-offers (some bw) (l ∷ ls) = elim (Bool-cases (names_uri (trim_space l))) [
    | inr u ↦ rw u (AllNamed-offers (some bw) ls)
    | inl u ↦ elim (Option-cases (resolve_absolute_url lib base (trim_space l))) [
      | inl r ↦ rw (u, r) (AllNamed-offers none ls)
      | inr (url, r) ↦ rw (u, r) (names (trim_space l) url r, AllNamed-offers none ls)
    ]
  ]

  scan-Holds :
      (ls : List Bytes) → Holds (resolved (offers lib base none ls)) (scan lib base ls 0 no_variant)
  scan-Holds ls =
      subst (Holds (resolved (offers lib base none ls)))
        (sym (as_master-scan lib base ls 0 no_variant))
        (Holds-offered (offers lib base none ls) [] (as_master no_variant) (AllNamed-offers none ls)
          (inl (refl, refl)))

  -- A playlist in which variants are named (a tag, and the first URI behind it, if it can be resolved)
  -- leads to the first of them than which none has a higher bandwidth; a playlist without a variant is
  -- read as a media playlist. The bandwidth is the number behind the first `BANDWIDTH=` of the tag,
  -- also where that is the end of another name, such as AVERAGE-BANDWIDTH, and 0 where there is none.
  -- No URL resolves to the empty text.
  pub read_playlist-IsBest :
      (content : Bytes)
      → let vs = resolved (offers lib base none (split_lines content)) in
        ((vs ≡ [])
          × (read_playlist lib base content
              ≡ finish (chunks_or_error (media lib base (split_lines content) 0 (pos 0)))))
        ⊎ ((bw : ℤ) × (url : Bytes) × IsBest vs bw url
            × (read_playlist lib base content ≡ descend url))
  unfolding read_playlist
  read_playlist-IsBest content =
      let st = scan lib base (split_lines content) 0 no_variant in
      elim (scan-Holds (split_lines content)) [
        | inl (nothing, e) ↦ inl (nothing, choose_media st e)
        | inr (e, best) ↦ inr (
          st.max_bandwidth,
          st.best,
          best,
          choose_best st e
              (is_master st e (scan-found lib base (split_lines content) 0 no_variant)),
        )
      ]
    where
      chosen : Scan → Step
      chosen st =
          if st.is_master && not (is_empty st.best)
          then descend st.best
          else finish (chunks_or_error (media lib base (split_lines content) 0 (pos 0)))

      choose_media :
          (st : Scan)
          → is_empty st.best ≡ true
          → chosen st ≡ finish (chunks_or_error (media lib base (split_lines content) 0 (pos 0)))
      choose_media st e = elim (Bool-cases st.is_master) [
        | inl m ↦ rw (m, e) refl
        | inr m ↦ rw m refl
      ]

      is_master :
          (st : Scan)
          → is_empty st.best ≡ false
          → (st.is_master ≡ true) ⊎ (st ≡ no_variant)
          → st.is_master ≡ true
      is_master st e (inl m) = m
      is_master st e (inr q) = absurd (cc)

      choose_best :
          (st : Scan) → is_empty st.best ≡ false → st.is_master ≡ true → chosen st ≡ descend st.best
      choose_best st e m = rw (m, e) refl
