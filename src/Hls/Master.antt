-- ===== src/Hls/Master.antt =====
-- Which variant of a master playlist is taken.

use oget.Prelude.{
  ℕ, zero, suc, ◌≡◌, refl, Bool, true, false, not, ◌||◌, ◌==◌, Option, none, some, List, [], ◌∷◌,
  arith, if◌then◌else◌, drop, inl, inr, ◌⊎◌, Bool-cases, Option-cases, ◌∙◌, sym, ap,
}
use oget.Prelude.Int.{ℤ, ltb_ℤ}
use oget.Hls.Bandwidth.{stated, bandwidth-stated}
use oget.Prelude.Text.{Bytes, has_prefix, trim_space, is_empty}
use oget.Hls.{
  Tools, Scan, stream_tag, resolve_absolute_url, bandwidth, is_uri, next_uri, scan, offer_if,
  as_master,
}

-- a text that is not empty and does not begin with `#`
abbrev pub names_uri : Bytes → Bool
names_uri [] = false
names_uri (c ∷ s) = not (c == b'#')

pub is_uri-names_uri : (s : Bytes) → is_uri s ≡ names_uri s
unfolding is_uri has_prefix
is_uri-names_uri [] = refl
is_uri-names_uri (c ∷ []) = ground arith
is_uri-names_uri (c ∷ d ∷ s) = ground arith

module _ {U : Type 0} (lib : Tools U) (base : Bytes) where
  -- The variants that a playlist names, in their order: a tag, and the first URI behind it. The
  -- bandwidth that a tag states waits for its URI.
  unfoldable pub offers : Option ℤ → List Bytes → List (ℤ × Option Bytes)
  offers waits [] = []
  offers none (l ∷ ls) =
      if has_prefix (trim_space l) stream_tag
      then offers (some (stated lib (trim_space l))) ls
      else offers none ls
  offers (some bw) (l ∷ ls) =
      if names_uri (trim_space l)
      then (bw, resolve_absolute_url lib base (trim_space l)) ∷ offers none ls
      else offers (some bw) ls

-- the variants whose URLs can be resolved
abbrev pub resolved : List (ℤ × Option Bytes) → List (ℤ × Bytes)
resolved [] = []
resolved ((bw, none) ∷ xs) = resolved xs
resolved ((bw, some url) ∷ xs) = (bw, url) ∷ resolved xs

-- the variants offered to the loop one after the other
abbrev pub offered : List (ℤ × Option Bytes) → Scan → Scan
offered [] st = st
offered ((bw, url) ∷ xs) st = offered xs (offer_if bw url st)

as_master-offer_if :
    (bw : ℤ) (url : Option Bytes) (st : Scan)
    → as_master (offer_if bw url (as_master st)) ≡ offer_if bw url (as_master st)
as_master-offer_if bw none st = refl
as_master-offer_if bw (some url) st =
    elim (Bool-cases (ltb_ℤ st.max_bandwidth bw || is_empty st.best)) [
      | inl e ↦ rw e refl
      | inr e ↦ rw e refl
    ]

module _ {U : Type 0} (lib : Tools U) (base : Bytes) where
  no_uri_tail :
      (l : Bytes) (ls : List Bytes)
      → next_uri (l ∷ ls) ≡ none
      → (is_uri (trim_space l) ≡ false) × (next_uri ls ≡ none)
  unfolding next_uri
  no_uri_tail l ls h = elim (Bool-cases (is_uri (trim_space l))) [
    | inl u ↦ absurd (ground arith)
    | inr u ↦ elim (Option-cases (next_uri ls)) [
      | inl q ↦ (u, q)
      | inr (p, q) ↦ absurd (ground arith)
    ]
  ]

  offers-no_uri :
      (ls : List Bytes) (waits : Option ℤ) → next_uri ls ≡ none → offers lib base waits ls ≡ []
  unfolding offers
  offers-no_uri [] waits h = refl
  offers-no_uri (l ∷ ls) (some bw) h =
      let (u, q) = no_uri_tail l ls h in
      let u' = sym (is_uri-names_uri (trim_space l)) ∙ u in rw u' (offers-no_uri ls (some bw) q)
  offers-no_uri (l ∷ ls) none h =
      let (u, q) = no_uri_tail l ls h in
      elim (Bool-cases (has_prefix (trim_space l) stream_tag)) [
        | inl t ↦ rw t (offers-no_uri ls _ q)
        | inr t ↦ rw t (offers-no_uri ls none q)
      ]

  offers-next_uri :
      (ls : List Bytes) (bw : ℤ) (k : ℕ) (next : Bytes)
      → next_uri ls ≡ some (k, next)
      → offers lib base (some bw) ls
        ≡ (bw, resolve_absolute_url lib base next) ∷ offers lib base none (drop (suc k) ls)
  unfolding offers next_uri
  offers-next_uri [] bw k next h = absurd (cc)
  offers-next_uri (l ∷ ls) bw k next h = elim (Bool-cases (is_uri (trim_space l))) [
    | inl u ↦
        let at : (0 ≡ k) × (trim_space l ≡ next) = ground arith in
        let u' = sym (is_uri-names_uri (trim_space l)) ∙ u in rw (u', ← at.0, ← at.1) refl
    | inr u ↦ elim (Option-cases (next_uri ls)) [
      | inl q ↦ absurd (ground arith)
      | inr ((j, v), q) ↦
          let at : (suc j ≡ k) × (v ≡ next) = ground arith in
          let u' = sym (is_uri-names_uri (trim_space l)) ∙ u in
          rw (u', ← at.0, ← at.1) (offers-next_uri ls bw j v q)
    ]
  ]

  pub as_master-scan :
      (ls : List Bytes) (skip : ℕ) (st : Scan)
      → as_master (scan lib base ls skip st)
        ≡ offered (offers lib base none (drop skip ls)) (as_master st)
  unfolding offers scan
  as_master-scan [] zero st = refl
  as_master-scan [] (suc skip) st = refl
  as_master-scan (l ∷ ls) (suc skip) st = as_master-scan ls skip st
  as_master-scan (l ∷ ls) zero st = elim (Bool-cases (has_prefix (trim_space l) stream_tag)) [
    | inr t ↦ rw t (as_master-scan ls 0 st)
    | inl t ↦
        let bw = stated lib (trim_space l) in
        let found = bandwidth-stated lib (trim_space l) in
        elim (Option-cases (next_uri ls)) [
          | inl q ↦
              rw (t, q, offers-no_uri ls (some bw) q)
                (as_master-scan ls 0 (as_master st)
                  ∙ ap (λ xs. offered xs (as_master st)) (offers-no_uri ls none q))
          | inr ((k, next), q) ↦
              let r = resolve_absolute_url lib base next in
              rw (t, q, found, offers-next_uri ls bw k next q)
                (as_master-scan ls (suc k) (offer_if bw r (as_master st))
                  ∙ ap (offered (offers lib base none (drop (suc k) ls)))
                      (as_master-offer_if bw r st))
        ]
  ]

  scan-stays_master :
      (ls : List Bytes) (skip : ℕ) (st : Scan)
      → st.is_master ≡ true
      → (scan lib base ls skip st).is_master ≡ true
  unfolding scan
  scan-stays_master [] skip st h = h
  scan-stays_master (l ∷ ls) (suc skip) st h = scan-stays_master ls skip st h
  scan-stays_master (l ∷ ls) zero st h = elim (Bool-cases (has_prefix (trim_space l) stream_tag)) [
    | inr t ↦ rw t (scan-stays_master ls 0 st h)
    | inl t ↦ elim (Option-cases (next_uri ls)) [
      | inl q ↦ rw (t, q) (scan-stays_master ls 0 (as_master st) refl)
      | inr ((k, next), q) ↦
          rw (t, q)
            (scan-stays_master ls (suc k) _ (
              is_master-offer_if (bandwidth lib (trim_space l)) (resolve_absolute_url lib base next)
                st))
    ]
  ]
    where
      is_master-offer_if :
          (bw : ℤ) (url : Option Bytes) (st : Scan)
          → (offer_if bw url (as_master st)).is_master ≡ true
      is_master-offer_if bw url st =
          ap (λ (x : Scan). x.is_master) (sym (as_master-offer_if bw url st))

  -- A scan that found no tag of a variant has changed nothing.
  pub scan-found :
      (ls : List Bytes) (skip : ℕ) (st : Scan)
      → ((scan lib base ls skip st).is_master ≡ true) ⊎ (scan lib base ls skip st ≡ st)
  unfolding scan
  scan-found [] skip st = inr refl
  scan-found (l ∷ ls) (suc skip) st = scan-found ls skip st
  scan-found (l ∷ ls) zero st = elim (Bool-cases (has_prefix (trim_space l) stream_tag)) [
    | inr t ↦ rw t (scan-found ls 0 st)
    | inl t ↦ elim (Option-cases (next_uri ls)) [
      | inl q ↦ inl (rw (t, q) (scan-stays_master ls 0 (as_master st) refl))
      | inr ((k, next), q) ↦ inl (
          rw (t, q)
            (scan-stays_master ls (suc k) _ (
              ap (λ (x : Scan). x.is_master)
                (sym (
                  as_master-offer_if (bandwidth lib (trim_space l))
                    (resolve_absolute_url lib base next) st)))))
    ]
  ]
